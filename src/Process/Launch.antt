-- ===== src/Process/Launch.antt =====
-- `launch_process` of src-tauri/process/src/process_manager.rs with the arguments of its template, of
-- src-tauri/process/src/format.rs. The operating system's answers and the formatting library are
-- arguments.
use drop_app.Prelude.{
  String, false, ℕ, List, [], ◌∷◌, Option, none, some, Map, get, insert, contains_key, get_elem?,
  string_key, if◌then◌else◌,
}
use drop_app.Prelude.Outcomes.{Outcome, ok, err, panic, ◌>>=◌, ok_or, unwrap}
use drop_app.Prelude.Texts.{concat, join_path}
use drop_app.Database.Metadata.{DownloadableMetadata, game, metadata_key}
use drop_app.Database.Models.{
  GameVersion, GameDownloadStatus, DatabaseApplications, installed, setup_required,
  partially_installed, remote, running,
}
use drop_app.Games.Library.{Client, push_game_update}
use drop_app.Process.{
  ProcessError, not_installed, already_running, invalid_id, invalid_version, io_error, format_error,
}
use drop_app.Process.Handlers.{ProcessHandler}
use drop_app.Process.Manager.{ProcessManager, get_log_dir, fetch_process_handler}

pub record DropFormatArgs : Type 0 where
  pub positional : List String
  pub map : Map String String

unfoldable pub new_format_args : String → String → String → String → DropFormatArgs
new_format_args launch_string working_dir executable_name absolute_executable_name = record {
  positional = launch_string ∷ [];
  map =
      insert "abs_exe" absolute_executable_name
        (insert "exe" executable_name (insert "dir" working_dir []));
}

unfoldable pub get_index : ℕ → DropFormatArgs → Option String
get_index i args = get_elem? args.positional i

unfoldable pub get_key : String → DropFormatArgs → Option String
get_key key args = get key args.map

-- What is given to the shell: the directory it starts in, and the command.
pub record Command : Type 0 where
  pub current_dir : String
  pub launch_string : String
  pub log_file : String
  pub error_file : String

-- The answers of the operating system: an error of `create_dir_all` and of opening a file to write,
-- the child or the error of spawning it, and the time, as the decimal number
-- of seconds and in nanoseconds.
pub record System (Child : Type 0) : Type 0 where
  pub create_dir_all : String → Option String
  pub open_file : String → Option String
  pub spawn : Command → Outcome String Child
  pub timestamp : String
  pub now : ℕ

-- `map_err(ProcessError::IOError)`
abbrev pub no_error : Option String → Outcome ProcessError (Unit {0})
no_error none = ok tt
no_error (some e) = err (io_error e)

abbrev pub map_err {ℓ} :
    {A : Type ℓ} → (String → ProcessError) → Outcome String A → Outcome ProcessError A
map_err f (ok a) = ok a
map_err f (err e) = err (f e)
map_err f panic = panic

-- version_name, install_dir
abbrev pub playable : Option GameDownloadStatus → Option (String × String)
playable (some (installed v d)) = some (v, d)
playable (some (setup_required v d)) = some (v, d)
playable _ = none

abbrev pub launch_command_of :
    GameDownloadStatus → GameVersion → Outcome ProcessError (String × List String)
launch_command_of (installed v d) version = ok (version.launch_command, version.launch_args)
launch_command_of (setup_required v d) version = ok (version.setup_command, version.setup_args)
launch_command_of (partially_installed v d) version = panic
launch_command_of remote version = panic

unfoldable pub game_version_of :
    DatabaseApplications → String → String → Outcome ProcessError GameVersion
game_version_of db game_id version_name = do
  versions ← ok_or (get game_id db.game_versions) invalid_id
  ok_or (get version_name versions) invalid_version

abbrev pub log_name : String → String → String → String
log_name version timestamp ending = concat (version ∷ "-" ∷ timestamp ∷ ending ∷ [])

abbrev pub game_meta : String → String → DownloadableMetadata
game_meta id version = record { id = id; version = some version; download_type = game }

abbrev pub mark_running : DownloadableMetadata → Client → Client
mark_running meta c = record c {
  db = record c.db { transient_statuses = insert meta running c.db.transient_statuses };
}

module _ {Child : Type 0} (format : String → DropFormatArgs → Outcome String String)
    (sys : System Child) where
  unfoldable pub open_logs :
      ProcessManager Child → String → String → Outcome ProcessError (String × String)
  open_logs m game_id version = do
    let folder = get_log_dir m game_id
    _ ← no_error (sys.create_dir_all folder)
    let log_file = join_path folder (log_name version sys.timestamp ".log")
    _ ← no_error (sys.open_file log_file)
    let error_file = join_path folder (log_name version sys.timestamp "-error.log")
    _ ← no_error (sys.open_file error_file)
    ok (log_file, error_file)

  -- The executable, as `launch.display()`, and the text for the shell.
  unfoldable pub launch_text :
      ProcessHandler
      → DownloadableMetadata
      → GameDownloadStatus
      → GameVersion
      → String
      → Outcome ProcessError String
  launch_text handler meta status version install_dir = do
    command ← launch_command_of status version
    let launch = join_path install_dir command.0
    launch_string ← handler.create_launch_process meta launch command.1 version install_dir
    let args = new_format_args launch_string install_dir version.launch_command launch
    map_err format_error (format version.launch_command_template args)

  abbrev pub add_process : String → Child → ProcessManager Child → ProcessManager Child
  add_process id child m = record m {
    processes =
        insert id (record { handle = child; start = sys.now; manually_killed = false }) m.processes;
  }

  -- The command to run for a game that the database has as playable.
  unfoldable pub prepare :
      ProcessManager Child → Client → DownloadableMetadata → String → Outcome ProcessError Command
  prepare m c meta version = do
    status ← ok_or (get meta.id c.db.game_statuses) not_installed
    (version_name, install_dir) ← ok_or (playable (some status)) not_installed
    entry ← game_version_of c.db meta.id version_name
    (log_file, error_file) ← open_logs m meta.id version
    handler ← fetch_process_handler m c.db entry.platform
    text ← launch_text handler meta status entry install_dir
    ok (record {
      current_dir = install_dir;
      launch_string = text;
      log_file = log_file;
      error_file = error_file;
    })

  -- The database is read twice, and unlocked in between: `before` is its state at the first time.
  unfoldable pub start_process :
      String
      → Client
      → ProcessManager Child
      → Client
      → Outcome ProcessError (ProcessManager Child × Client)
  start_process game_id before m c = do
    (version, _) ← ok_or (playable (get game_id before.db.game_statuses)) not_installed
    let meta = game_meta game_id version
    command ← prepare m c meta version
    child ← map_err io_error (sys.spawn command)
    pushed ← unwrap (push_game_update game_id none (none, some running) (mark_running meta c))
    ok (add_process game_id child m, pushed)

  unfoldable pub launch_process :
      String
      → Client
      → ProcessManager Child × Client
      → Outcome ProcessError (ProcessManager Child × Client)
  launch_process game_id before (m, c) =
      if contains_key game_id m.processes
      then err already_running
      else start_process game_id before m c
