-- ===== src/Process/Manager.antt =====
-- src-tauri/process/src/process_manager.rs: the state of the process manager, the choice of a handler
-- for a platform, and killing a game. `Child` is the type of the handles of child processes.
use drop_app.Prelude.{
  String, Bool, true, false, ◌&&◌, ℕ, List, [], ◌∷◌, Option, none, some, Map, get, insert,
  string_key, if◌then◌else◌,
}
use drop_app.Prelude.Outcomes.{Outcome, ok, err, ok_or, panic}
use drop_app.Prelude.Texts.{join_path}
use drop_app.Database.Metadata.{Platform, windows, linux, mac_os, platform_eq}
use drop_app.Database.Models.{DatabaseApplications}
use drop_app.Process.{ProcessError, invalid_platform}
use drop_app.Process.Compat.{Host}
use drop_app.Process.Handlers.{
  ProcessHandler, native_game_launcher, umu_launcher, asahi_muvm_launcher,
}

-- `start` in nanoseconds.
pub record RunningProcess (Child : Type 0) : Type 0 where
  pub handle : Child
  pub start : ℕ
  pub manually_killed : Bool

-- The platform a launcher runs on, the platform of the game, and the launcher.
pub record GameLauncher : Type 0 where
  pub current : Platform
  pub target : Platform
  pub handler : ProcessHandler

pub record ProcessManager (Child : Type 0) : Type 0 where
  pub current_platform : Platform
  pub log_output_dir : String
  pub processes : Map String (RunningProcess Child)
  pub game_launchers : List GameLauncher

abbrev pub all_launchers : Host → List GameLauncher
all_launchers h =
    record { current = windows; target = windows; handler = native_game_launcher }
    ∷ record { current = linux; target = linux; handler = native_game_launcher }
    ∷ record { current = mac_os; target = mac_os; handler = native_game_launcher }
    ∷ record { current = linux; target = windows; handler = asahi_muvm_launcher h }
    ∷ record { current = linux; target = windows; handler = umu_launcher h }
    ∷ []

-- The first entry of the table for the two platforms whose handler says it is valid.
unfoldable pub find_launcher :
    List GameLauncher → DatabaseApplications → Platform → Platform → Option ProcessHandler
find_launcher [] db current target = none
find_launcher (e ∷ es) db current target =
    let rest = find_launcher es db current target in
    let matches = platform_eq e.current current && platform_eq e.target target in
    if matches && e.handler.valid_for_platform db target then some e.handler else rest

abbrev is_ok : Outcome ProcessError ProcessHandler → Bool
is_ok (ok handler) = true
is_ok (err e) = false
is_ok panic = false

-- What the operating system answers to `kill` and then to `wait`: an error, or nothing.
pub record KillAnswers : Type 0 where
  pub kill : Option String
  pub wait : Option String

abbrev pub first_error : KillAnswers → Option String
first_error a = elim a.kill [ some e ↦ some e | none ↦ a.wait ]

module _ {Child : Type 0} where
  unfoldable pub new : Host → String → ProcessManager Child
  new h data_root_dir = record {
    current_platform = h.os;
    log_output_dir = join_path data_root_dir "logs";
    processes = [];
    game_launchers = all_launchers h;
  }

  abbrev pub get_log_dir : ProcessManager Child → String → String
  get_log_dir m game_id = join_path m.log_output_dir game_id

  unfoldable pub fetch_process_handler :
      ProcessManager Child → DatabaseApplications → Platform → Outcome ProcessError ProcessHandler
  fetch_process_handler m db target =
      ok_or (find_launcher m.game_launchers db m.current_platform target) invalid_platform

  unfoldable pub valid_platform : ProcessManager Child → DatabaseApplications → Platform → Bool
  valid_platform m db target = is_ok (fetch_process_handler m db target)

  abbrev pub mark_killed : RunningProcess Child → RunningProcess Child
  mark_killed p = record p { manually_killed = true }

  abbrev pub kill_running :
      Option (RunningProcess Child)
      → String
      → KillAnswers
      → ProcessManager Child
      → Option String × ProcessManager Child
  kill_running none game_id answers m = (some "Game ID not running", m)
  kill_running (some p) game_id answers m =
      (first_error answers, record m { processes = insert game_id (mark_killed p) m.processes })

  -- The error, if the call returned one, and the state after it.
  unfoldable pub kill_game :
      String → KillAnswers → ProcessManager Child → Option String × ProcessManager Child
  kill_game game_id answers m = kill_running (get game_id m.processes) game_id answers m
