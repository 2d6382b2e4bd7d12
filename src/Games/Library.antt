-- ===== src/Games/Library.antt =====
-- src-tauri/games/src/library.rs: the operations that move a game between its states. A database with
-- the events that the interface was sent is passed along; `none` is a panic.
pub mod Transitions
pub mod Completion
use text.Mathlib.Text.{◌==◌ as str_eq}
use drop_app.Prelude.{
  String, Bool, true, false, Option, none, some, List, [], ◌∷◌, ◌++◌, get, insert, remove, Map,
  string_key, if◌then◌else◌,
}
use drop_app.Prelude.Panics.{◌>>=◌}
use drop_app.Database.Metadata.{DownloadableMetadata, metadata_key}
use drop_app.Database.Models.{
  DatabaseApplications, GameDownloadStatus, GameVersion, remote, setup_required, installed,
  partially_installed, uninstalling,
}
use drop_app.Games.State.{GameStatusWithTransient, fetch_state}
use drop_app.Remote.Error.{RemoteAccessError, game_not_found}

pub data UiEvent : Type 0 where
  update_game : String → GameStatusWithTransient → Option GameVersion → UiEvent
  update_library : UiEvent
  download_error : UiEvent

pub record Client : Type 0 where
  pub db : DatabaseApplications
  pub events : List UiEvent

unfoldable pub emit : UiEvent → Client → Client
emit e c = record c { events = c.events ++ e ∷ [] }

-- `GameDownloadStatus::Installed { .. } | GameDownloadStatus::SetupRequired { .. }`
abbrev pub needs_version : Option GameDownloadStatus → Bool
needs_version (some (installed v d)) = true
needs_version (some (setup_required v d)) = true
needs_version _ = false

-- Panics on an installed game without version information.
unfoldable pub push_game_update :
    String → Option GameVersion → GameStatusWithTransient → Client → Option Client
unfolding emit
push_game_update id none status c =
    if needs_version status.0 then none else some (emit (update_game id status none) c)
push_game_update id (some v) status c = some (emit (update_game id status (some v)) c)

unfoldable pub mark_partially_installed : DownloadableMetadata → String → String → Client → Client
mark_partially_installed meta version install_dir c = record c {
  db = record c.db {
    transient_statuses = remove meta c.db.transient_statuses;
    game_statuses = insert meta.id (partially_installed version install_dir) c.db.game_statuses;
    installed_game_version = insert meta.id meta c.db.installed_game_version;
  };
}

-- `push` stands for the application handle: scanning at start-up has none.
unfoldable pub set_partially_installed :
    DownloadableMetadata → String → Bool → Client → Option Client
set_partially_installed meta install_dir push c = do
  version ← meta.version
  let c' = mark_partially_installed meta version install_dir c
  if push then push_game_update meta.id none (fetch_state meta.id c'.db) c' else some c'

abbrev pub install_dir_of : Option GameDownloadStatus → Option String
install_dir_of (some (installed v d)) = some d
install_dir_of (some (setup_required v d)) = some d
install_dir_of (some (partially_installed v d)) = some d
install_dir_of _ = none

unfoldable pub mark_uninstalling : DownloadableMetadata → Client → Client
mark_uninstalling meta c = record c {
  db = record c.db { transient_statuses = insert meta uninstalling c.db.transient_statuses };
}

abbrev pub start_removal : DownloadableMetadata → Option String → Client → Client × Option String
start_removal meta none c = (c, none)
start_removal meta (some dir) c = (mark_uninstalling meta c, some dir)

-- The part of `uninstall_game_logic` that the caller runs. The directory, if any, is what the spawned
-- thread goes on to remove.
unfoldable pub uninstall_game_logic :
    DownloadableMetadata → Client → Option (Client × Option String)
uninstall_game_logic meta c = do
  let marked = mark_uninstalling meta c
  pushed ← push_game_update meta.id none (fetch_state meta.id marked.db) marked
  some (start_removal meta (install_dir_of (get meta.id pushed.db.game_statuses)) pushed)

unfoldable pub mark_remote : DownloadableMetadata → Client → Client
mark_remote meta c = record c {
  db = record c.db {
    transient_statuses = remove meta (remove meta c.db.transient_statuses);
    installed_game_version = remove meta.id c.db.installed_game_version;
    game_statuses = insert meta.id remote c.db.game_statuses;
  };
}

-- The spawned thread, once `remove_dir_all` has returned; `removed` says whether it succeeded.
unfoldable pub finish_uninstall : DownloadableMetadata → Bool → Client → Option Client
finish_uninstall meta false c = some c
finish_uninstall meta true c = do
  let removed = mark_remote meta c
  pushed ← push_game_update meta.id none (fetch_state meta.id removed.db) removed
  some (emit update_library pushed)

abbrev pub versions_of : Option (Map String GameVersion) → Map String GameVersion
versions_of none = []
versions_of (some vs) = vs

-- `entry(id).or_default().insert(version, data)`
abbrev pub add_version :
    String
    → String
    → GameVersion
    → Map String (Map String GameVersion)
    → Map String (Map String GameVersion)
add_version id version g m = insert id (insert version g (versions_of (get id m))) m

abbrev pub completed_status : GameVersion → String → String → GameDownloadStatus
completed_status v version dir =
    if str_eq v.setup_command "" then installed version dir else setup_required version dir

-- What the server answers to the request for the version: its data, or the error of the request.
pub data Answer : Type 0 where
  version_data : GameVersion → Answer
  failed : RemoteAccessError → Answer

abbrev pub complete :
    DownloadableMetadata → String → Answer → String → Client → Option RemoteAccessError × Client
complete meta dir (failed e) version c = (some e, c)
complete meta dir (version_data v) version c =
    let status = completed_status v version dir in
    let db = record c.db {
      game_versions = add_version meta.id version v c.db.game_versions;
      installed_game_version = insert meta.id meta c.db.installed_game_version;
      game_statuses = insert meta.id status c.db.game_statuses;
    } in
    (none, emit (update_game meta.id (some status, none) (some v)) (record c { db = db }))

-- The error, if the call returned one, and the state after it.
unfoldable pub on_game_complete :
    DownloadableMetadata → String → Answer → Client → Option RemoteAccessError × Client
unfolding emit
on_game_complete meta dir answer c = elim meta.version [
  | none ↦ (some (game_not_found meta.id), c)
  | some version ↦ complete meta dir answer version c
]
