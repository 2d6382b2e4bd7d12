-- ===== src/Games/Library/Completion.antt =====
-- What `on_game_complete` of src-tauri/games/src/library.rs does, on every branch.
use text.Mathlib.Text.{◌==◌ as str_eq}
use drop_app.Prelude.{
  String, ◌≡◌, Option, none, some, get, string_key, arith, if◌then◌else◌, same, ◌&&◌, ◌++◌, ◌∷◌, [],
  Map,
}
use drop_app.Database.Metadata.{DownloadableMetadata, metadata_key}
use drop_app.Database.Models.{GameVersion, installed, setup_required, ApplicationTransientStatus}
use drop_app.Games.State.{fetch_state}
use drop_app.Games.Library.{Client, Answer, on_game_complete, emit, update_game}

abbrev pub version_of : Option (Map String GameVersion) → String → Option GameVersion
version_of none v = none
version_of (some vs) v = get v vs

-- What is known of every game, and of every version of it, after a download of the version `v` was
-- completed in a directory.
abbrev pub Completed :
    DownloadableMetadata → String → String → GameVersion → Client → Client → Type 0
Completed meta v dir g c c' =
    let status = if str_eq g.setup_command "" then installed v dir else setup_required v dir in
    ((id : String)
      → get id c'.db.game_statuses
        ≡ (if same meta.id id then some status else get id c.db.game_statuses))
    × ((id w : String)
        → version_of (get id c'.db.game_versions) w ≡ (
            if same meta.id id && same v w
            then some g
            else version_of (get id c.db.game_versions) w))
    × ((id : String)
        → get id c'.db.installed_game_version
          ≡ (if same meta.id id then some meta else get id c.db.installed_game_version))
    × (c'.db.transient_statuses ≡ c.db.transient_statuses)
    × (c'.db.install_dirs ≡ c.db.install_dirs)
    × (c'.events ≡ c.events ++ update_game meta.id (some status, none) (some g) ∷ [])

-- A transient status that hides the game's stored one goes on hiding it after the download is
-- complete, whatever the server answers: nothing on this path takes it away.
pub on_game_complete_hidden :
    (meta : DownloadableMetadata) (dir : String) (answer : Answer) (c : Client)
    (t : ApplicationTransientStatus)
    → fetch_state meta.id c.db ≡ (none, some t)
    → fetch_state meta.id (on_game_complete meta dir answer c).1.db ≡ (none, some t)
unfolding on_game_complete fetch_state emit
on_game_complete_hidden meta dir answer c t h = ground arith
