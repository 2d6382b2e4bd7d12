-- ===== src/Process/Finish.antt =====
-- `on_process_finish` of src-tauri/process/src/process_manager.rs, which the thread that waits for a
-- process calls when it has ended.
use drop_app.Prelude.{
  String, Bool, true, false, not, ◌&&◌, ◌||◌, ℕ, ◌-◌, ◌/◌, leb, Option, none, some, Map, get,
  insert, remove, string_key, if◌then◌else◌,
}
use drop_app.Prelude.Panics.{◌>>=◌}
use drop_app.Database.Metadata.{DownloadableMetadata, metadata_key}
use drop_app.Database.Models.{
  GameVersion, GameDownloadStatus, DatabaseApplications, installed, setup_required,
}
use drop_app.Games.State.{fetch_state}
use drop_app.Games.Library.{Client, push_game_update}
use drop_app.Process.{ProcessError, failed_launch}
use drop_app.Process.Manager.{ProcessManager, RunningProcess}

-- `Result<ExitStatus, io::Error>`: whether the exit status is a success.
pub data WaitResult : Type 0 where
  exited : Bool → WaitResult
  wait_failed : String → WaitResult

abbrev pub succeeded : WaitResult → Bool
succeeded (exited success) = success
succeeded (wait_failed e) = false

-- `start.elapsed().unwrap_or(Duration::ZERO).as_secs()`: a clock set back counts as no time.
unfoldable pub elapsed_secs : ℕ → ℕ → ℕ
elapsed_secs start now = (now - start) / 1000000000

-- A setup that succeeds makes the game installed.
abbrev pub finish_setup :
    Option GameDownloadStatus
    → Bool
    → String
    → Map String GameDownloadStatus
    → Map String GameDownloadStatus
finish_setup (some (setup_required v d)) true game_id m = insert game_id (installed v d) m
finish_setup _ _ game_id m = m

unfoldable pub release : String → DownloadableMetadata → WaitResult → Client → Client
release game_id meta result c = record c {
  db = record c.db {
    transient_statuses = remove meta c.db.transient_statuses;
    game_statuses =
        finish_setup (get game_id c.db.game_statuses) (succeeded result) game_id c.db.game_statuses;
  };
}

unfoldable pub installed_version_data :
    DatabaseApplications → String → DownloadableMetadata → Option GameVersion
installed_version_data db game_id meta = do
  versions ← get game_id db.game_versions
  version ← meta.version
  get version versions

module _ {Child : Type 0} where
  -- It was not killed by the player, and ended within two seconds or not with success.
  abbrev pub looks_failed : RunningProcess Child → ℕ → WaitResult → Bool
  looks_failed p now result =
      not p.manually_killed && (leb (elapsed_secs p.start now) 2 || not (succeeded result))

  abbrev pub finish_running :
      Option (RunningProcess Child)
      → String
      → WaitResult
      → ℕ
      → ProcessManager Child × Client
      → Option (Option ProcessError × ProcessManager Child × Client)
  finish_running none game_id result now (m, c) = some (none, m, c)
  finish_running (some p) game_id result now (m, c) = do
    let m' = record m { processes = remove game_id m.processes }
    meta ← get game_id c.db.installed_game_version
    let c' = release game_id meta result c
    if looks_failed p now result then some (some (failed_launch game_id), m', c') else (do
      entry ← installed_version_data c'.db game_id meta
      pushed ← push_game_update game_id (some entry) (fetch_state game_id c'.db) c'
      some (none, m', pushed))

  -- The error, if the call returned one, and the state after it; `none` is a panic.
  unfoldable pub on_process_finish :
      String
      → WaitResult
      → ℕ
      → ProcessManager Child × Client
      → Option (Option ProcessError × ProcessManager Child × Client)
  on_process_finish game_id result now (m, c) =
      finish_running (get game_id m.processes) game_id result now (m, c)
