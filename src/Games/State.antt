-- ===== src/Games/State.antt =====
-- src-tauri/games/src/state.rs: what the interface is told about a game. A transient status hides the
-- stored one.
use drop_app.Prelude.{String, Option, none, some, get, string_key}
use drop_app.Database.Metadata.{DownloadableMetadata, game, metadata_key}
use drop_app.Database.Models.{DatabaseApplications, GameDownloadStatus, ApplicationTransientStatus}

abbrev pub GameStatusWithTransient : Type 0
GameStatusWithTransient = Option GameDownloadStatus × Option ApplicationTransientStatus

-- The key that `fetch_state` looks a game up by has no version.
abbrev pub unversioned : String → DownloadableMetadata
unversioned id = record { id = id; version = none; download_type = game }

abbrev pub merge_states :
    Option ApplicationTransientStatus → Option GameDownloadStatus → GameStatusWithTransient
merge_states (some t) offline = (none, some t)
merge_states none (some s) = (some s, none)
merge_states none none = (none, none)

unfoldable pub fetch_state : String → DatabaseApplications → GameStatusWithTransient
fetch_state id db =
    merge_states (get (unversioned id) db.transient_statuses) (get id db.game_statuses)
