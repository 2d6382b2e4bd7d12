-- ===== src/Tests/Client.antt =====
-- Games that are installed, taken away and completed, and an old database.
use drop_app.Prelude.{◌≡◌, refl, true, false, string_key, none, some, [], ◌∷◌, get}
use drop_app.Database.Metadata.{
  DownloadableMetadata, game, linux, metadata_eq, metadata_eq_any_version, metadata_key,
  download_type_eq,
}
use drop_app.Database.Models.{
  GameVersion, remote, installed, uninstalling, downloading, default_settings,
}
use drop_app.Database.Old
use drop_app.Database.Old.{DatabaseV1}
use drop_app.Database.Migration.{upgrade_v1, upgrade_v2, SameStatus, upgrade_game_statuses}
use drop_app.Games.State.{fetch_state}
use drop_app.Games.Library.{
  Client, uninstall_game_logic, finish_uninstall, install_dir_of, on_game_complete, version_data,
}
use drop_app.Games.Library.Transitions.{uninstall_then_finish}
use drop_app.Games.Library.Completion.{on_game_complete_hidden}
use drop_app.Tests.Downloads.{client_one, no_games}

abbrev pub meta_one : DownloadableMetadata
meta_one = record { id = "g"; version = some "v1"; download_type = game }

abbrev pub playing : Client
playing = record client_one {
  db = record no_games { game_statuses = ("g", installed "v1" "/games/g") ∷ [] };
}

uninstall_then_finish_example :
    (c' c'' : Client) × (uninstall_game_logic meta_one playing
      ≡ some (c', install_dir_of (get "g" playing.db.game_statuses)))
    × (fetch_state "g" c'.db ≡ (none, some uninstalling))
    × (c'.db.game_statuses ≡ playing.db.game_statuses)
    × (finish_uninstall meta_one true c' ≡ some c'')
    × (fetch_state "g" c''.db ≡ (some remote, none))
    × (get "g" c''.db.installed_game_version ≡ none)
uninstall_then_finish_example = uninstall_then_finish meta_one playing refl

abbrev pub version_one : GameVersion
version_one = record {
  game_id = "g";
  version_name = "v1";
  platform = linux;
  launch_command = "run";
  launch_args = [];
  launch_command_template = "{}";
  setup_command = "";
  setup_args = [];
  setup_command_template = "{}";
  only_setup = false;
  version_index = 0;
  delta = false;
  umu_id_override = none;
}

abbrev fetching : Client
fetching = record client_one {
  db = record no_games {
    transient_statuses =
        (record { id = "g"; version = none; download_type = game }, downloading "v1") ∷ [];
  };
}

is_fetching : fetch_state "g" fetching.db ≡ (none, some (downloading "v1"))
unfolding fetch_state get metadata_eq download_type_eq
is_fetching = refl

on_game_complete_hidden_example :
    fetch_state "g" (on_game_complete meta_one "/games/g" (version_data version_one) fetching).1.db
    ≡ (none, some (downloading "v1"))
on_game_complete_hidden_example =
    on_game_complete_hidden meta_one "/games/g" (version_data version_one) fetching
      (downloading "v1") is_fetching

abbrev old_database : DatabaseV1
old_database = record {
  settings = default_settings;
  auth = none;
  base_url = "";
  applications = record {
    install_dirs = [];
    game_statuses = ("g", Old.installed "v1" "/games/g") ∷ [];
    game_versions = [];
    installed_game_version = [];
    transient_statuses = [];
  };
  prev_database = none;
  cache_dir = "";
}

upgrade_game_statuses_example :
    let new = (upgrade_v2 (upgrade_v1 old_database)).applications in
    SameStatus (get "g" old_database.applications.game_statuses) (get "g" new.game_statuses)
    × (get "g" new.game_statuses ≡ get "g" new.game_statuses
        → get "g" old_database.applications.game_statuses
          ≡ get "g" old_database.applications.game_statuses)
upgrade_game_statuses_example = upgrade_game_statuses old_database old_database "g"

metadata_eq_any_version_example : metadata_eq meta_one (record meta_one { version = none }) ≡ true
metadata_eq_any_version_example = metadata_eq_any_version "g" (some "v1") none game
