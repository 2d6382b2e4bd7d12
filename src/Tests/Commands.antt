-- ===== src/Tests/Commands.antt =====
-- Test data and tests of Commands, and of the scan of Games.
use drop_app.Prelude.{
  String, ◌≡◌, refl, true, false, List, ◌∷◌, [], ◌++◌, Option, none, some, get, insert, string_key,
}
use drop_app.Prelude.Texts.{join_path, ends_with, concat}
use drop_app.Prelude.Outcomes.{Outcome, ok, err, panic}
use drop_app.Games.State.{fetch_state}
use drop_app.Games.Library.{Client, set_partially_installed, mark_partially_installed}
use drop_app.Games.Scan.{Directory, scan_install_dirs}
use drop_app.Games.Scan.Imports.{Keeps, Each, AreImported, scan_install_dirs_lem}
use drop_app.Remote.Cache.{Codec, written, write_to, write_sync, cache_object_db}
use drop_app.Remote.Auth.{reply, no_reply}
use drop_app.Commands.{Game, App}
use drop_app.Commands.Library.{
  fetch_library_logic, fetch_library_logic_offline, filter, is_playable, in_library,
}
use drop_app.Commands.Refresh.{Covers, status_or_remote, fetch_library_lem}
use drop_app.Commands.Details.{
  FetchGameStruct, fetch_game_logic, installed_version, update_game_configuration,
}
use drop_app.Commands.Consequences.{partial_install_panics}
use drop_app.Tests.Client.{meta_one, version_one}
use drop_app.Tests.Downloads.{no_games, client_one}
use drop_app.Downloads.DropData.{DropData}
use drop_app.Tests.Process.{ready}
use drop_app.Tests.Remote.{key_hash, as_is}

abbrev game_one : Game
game_one = record {
  id = "g";
  m_name = "Game";
  m_short_description = "";
  m_description = "";
  m_icon_object_id = "";
  m_banner_object_id = "";
  m_cover_object_id = "";
  m_image_library_object_ids = [];
  m_image_carousel_object_ids = [];
}

-- The cached list of games, or the first game of it.
abbrev first_game : List Game → Outcome String Game
first_game [] = err "no game"
first_game (g ∷ gs) = ok g

abbrev one_game : Codec (List Game) Game
one_game = record { encode = λ g. g ∷ []; decode = first_game }

abbrev app_one : App (List Game)
app_one = record { games = []; client = ready; files = ("/cache/g", game_one ∷ []) ∷ [] }

fetch_library_lem_example :
    let answer = ok (reply 200 (err "") (ok [])) in
    let fetch = fetch_library_logic key_hash one_game "/cache" as_is in
    (extra : List Game) × (app' : App (List Game)) × (fetch (some true) answer written app_one
      ≡ (ok ([] ++ extra), app'))
    × Covers key_hash one_game "/cache" app_one.files ready.db.installed_game_version ([] ++ extra)
    × ((id : String)
        → get id app'.client.db.game_statuses
          ≡ status_or_remote (get id ready.db.game_statuses) (in_library id []))
    × (fetch none (ok (no_reply "offline")) written app' ≡ (ok ([] ++ extra), app'))
    × (fetch_library_logic_offline key_hash one_game "/cache" as_is app'
        ≡ ok (filter (is_playable app'.client.db.game_statuses) ([] ++ extra)))
fetch_library_lem_example =
    fetch_library_lem key_hash one_game "/cache" as_is (λ l. refl) (ok (reply 200 (err "") (ok [])))
      (ok (no_reply "offline")) written [] app_one refl

abbrev app_game : App Game
app_game = record { games = []; client = ready; files = [] }

abbrev fetched_game : FetchGameStruct
fetched_game = record {
  game = game_one;
  status = fetch_state "g" ready.db;
  version = some version_one;
}

abbrev app_after : App Game
app_after = record {
  games = ("g", game_one) ∷ [];
  client = ready;
  files = ("/cache/g", game_one) ∷ [];
}

is_fetched :
    fetch_game_logic key_hash as_is "/cache" "g"
      (ok (reply 200 (err "") (ok game_one)))
      written
      app_game
    ≡ (ok fetched_game, app_after)
unfolding fetch_game_logic installed_version cache_object_db write_sync write_to get insert
    join_path ends_with concat
is_fetched = refl

abbrev partly : Client
partly = mark_partially_installed meta_one "v1" "/games/g" client_one

is_partly : set_partially_installed meta_one "/games/g" false client_one ≡ some partly
unfolding set_partially_installed
is_partly = refl

-- The game has data of another version.
abbrev other_version : Client
other_version = record client_one {
  db = record no_games { game_versions = ("g", ("v0", version_one) ∷ []) ∷ [] };
}

abbrev partly_other : Client
partly_other = mark_partially_installed meta_one "v1" "/games/g" other_version

is_partly_other :
    set_partially_installed meta_one "/games/g" false other_version ≡ some partly_other
unfolding set_partially_installed
is_partly_other = refl

partial_install_panics_example :
    (update_game_configuration "g" (record { launch_string = "{}" }) partly_other ≡ panic)
    × (installed_version partly_other.db "g" ≡ panic)
unfolding get
partial_install_panics_example =
    partial_install_panics meta_one "v1" "/games/g" false other_version partly_other
      (record { launch_string = "{}" }) is_partly_other refl refl

none_found : installed_version partly.db "g" ≡ ok none
unfolding get installed_version mark_partially_installed insert
none_found = refl

abbrev pub scanned : Client
scanned = record client_one { db = record no_games { install_dirs = "/games" ∷ [] } }

abbrev data_one : DropData
data_one = record { game_id = "g"; game_version = "v1"; contexts = []; base_path = "/games/g" }

abbrev pub read_dir : String → Option (List Directory)
read_dir dir = some (
    record { file_name = "g"; drop_data = some (some data_one) }
    ∷ record { file_name = "x"; drop_data = some none }
    ∷ [])

scan_install_dirs_lem_example :
    (c' : Client) × (scan_install_dirs read_dir scanned ≡ some c')
    × Keeps scanned c'
    × Each (AreImported c') read_dir ("/games" ∷ [])
scan_install_dirs_lem_example = scan_install_dirs_lem read_dir scanned ((refl, (tt, tt)), tt)
