-- ===== src/Commands/Startup.antt =====
-- `setup` of src-tauri/src/lib.rs: the start of the client. `exists` says which directories do.
use text.Mathlib.Text.{◌==◌ as str_eq}
use drop_app.Prelude.{
  String, ◌≡◌, refl, Bool, false, not, List, [], ◌∷◌, Option, none, some, Map, get, insert, is_some,
  contains_key, contains, string_key, map, if◌then◌else◌, arith,
}
use drop_app.Prelude.Panics.{◌>>=◌}
use drop_app.Database.Models.{
  GameDownloadStatus, remote, installed, setup_required, partially_installed,
}
use drop_app.Games.Library.{Client}
use drop_app.Games.Scan.{Directory, scan_install_dirs}
use drop_app.Remote.Auth.{AppStatus, User, not_configured}

abbrev pub is_missing : (String → Bool) → GameDownloadStatus → Bool
is_missing exists remote = false
is_missing exists (partially_installed v dir) = false
is_missing exists (setup_required v dir) = not (exists dir)
is_missing exists (installed v dir) = not (exists dir)

unfoldable pub missing_games : (String → Bool) → Map String GameDownloadStatus → List String
missing_games exists [] = []
missing_games exists ((id, s) ∷ m) =
    let rest = missing_games exists m in if is_missing exists s then id ∷ rest else rest

-- `entry(id).and_modify(…)`
abbrev pub modify_to_remote : String → Map String GameDownloadStatus → Map String GameDownloadStatus
modify_to_remote id m = if contains_key id m then insert id remote m else m

unfoldable pub set_remote :
    List String → Map String GameDownloadStatus → Map String GameDownloadStatus
set_remote [] m = m
set_remote (id ∷ ids) m = set_remote ids (modify_to_remote id m)

unfoldable pub check_games : (String → Bool) → Client → Client
check_games exists c = record c {
  db = record c.db {
    game_statuses = set_remote (missing_games exists c.db.game_statuses) c.db.game_statuses;
  };
}

-- Whether the database is set up is known before the scan. `auth` is what the set-up of the session
-- gives; the games are checked after it.
unfoldable pub start :
    String
    → (String → Option (List Directory))
    → Option (AppStatus × Option User)
    → (String → Bool)
    → Client
    → Option (AppStatus × Option User × Client)
start base_url read_dir auth exists c = do
  scanned ← scan_install_dirs read_dir c
  if str_eq base_url ""
      then some (not_configured, none, scanned)
      else (do (status, user) ← auth; some (status, user, check_games exists scanned))

-- What is to be known of a game after the start.
abbrev pub checked : (String → Bool) → Option GameDownloadStatus → Option GameDownloadStatus
checked exists none = none
checked exists (some remote) = some remote
checked exists (some (partially_installed v dir)) = some (partially_installed v dir)
checked exists (some (setup_required v dir)) =
    if exists dir then some (setup_required v dir) else some remote
checked exists (some (installed v dir)) = if exists dir then some (installed v dir) else some remote

abbrev pub keys : Map String GameDownloadStatus → List String
keys = map (λ e. e.0)

contains-keys :
    (id : String) (m : Map String GameDownloadStatus) → contains (keys m) id ≡ is_some (get id m)
unfolding contains get
contains-keys id [] = refl
contains-keys id ((i, s) ∷ m) = ground (arith, contains-keys id m)
