-- ===== src/Tests/Process.antt =====
-- Test data and tests of Process.
use drop_app.Prelude.{
  String, ℕ, ◌≡◌, refl, true, false, not, ◌||◌, leb, ◌∷◌, [], ◌++◌, Option, none, some, get, insert,
  string_key,
}
use drop_app.Prelude.Outcomes.{Outcome, ok, err}
use drop_app.Database.Metadata.{linux, platform_eq}
use drop_app.Database.Models.{setup_required, running}
use drop_app.Games.State.{fetch_state, merge_states}
use drop_app.Games.Library.{Client, update_game, push_game_update, emit}
use drop_app.Games.Library.Transitions.{SameElsewhere}
use drop_app.Process.Compat.{Host, get_umu_executable}
use drop_app.Process.Handlers.{asahi_launch_process, umu_launch_process, native_game_launcher}
use drop_app.Process.Manager.{
  ProcessManager, RunningProcess, new, find_launcher, fetch_process_handler,
}
use drop_app.Process.Launch.{
  System, DropFormatArgs, Command, launch_process, start_process, prepare, game_version_of,
  open_logs, launch_text, new_format_args, get_index, playable, game_meta, add_process,
  mark_running,
}
use drop_app.Process.Finish.{exited, on_process_finish, elapsed_secs, installed_version_data}
use drop_app.Process.Sessions.{launch_process_lem, launch_then_finish}
use drop_app.Process.Ends.{Consistent, state_after, finish_error, finish_events}
use drop_app.Prelude.Texts.{concat, join, split, split_from, trim, trim_start, trim_end}
use drop_app.Tests.Client.{version_one, meta_one}
use drop_app.Tests.Downloads.{no_games}

abbrev asahi_host : Host
asahi_host = record {
  os = linux;
  is_aarch64 = true;
  page_size = 16384;
  executable_exists = λ path. true;
}

umu_text :
    umu_launch_process asahi_host "/games/g/run" ("-w" ∷ "-x" ∷ []) version_one
    ≡ ok "GAMEID=g \"umu-run\" \"/games/g/run\" -w -x"
unfolding umu_launch_process get_umu_executable concat join
umu_text = refl

-- The quote before umu's path is now before `muvm`.
asahi_text :
    asahi_launch_process asahi_host "/games/g/run" ("-w" ∷ "-x" ∷ []) version_one
    ≡ ok "GAMEID=g \" muvm -- umu-run\" \"/games/g/run\" -w -x"
unfolding asahi_launch_process umu_launch_process get_umu_executable split split_from concat join
    trim trim_end trim_start
asahi_text = refl

-- The template's only argument.
abbrev first_argument : Option String → Outcome String String
first_argument none = err "no argument"
first_argument (some text) = ok text

abbrev format : String → DropFormatArgs → Outcome String String
format template args = first_argument (get_index 0 args)

abbrev system : System ℕ
system = record {
  create_dir_all = λ path. none;
  open_file = λ path. none;
  spawn = λ command. ok 7;
  timestamp = "5";
  now = 5000000000;
}

abbrev manager : ProcessManager ℕ
manager = new asahi_host "/data"

abbrev pub ready : Client
ready = record {
  db = record no_games {
    game_statuses = ("g", setup_required "v1" "/games/g") ∷ [];
    game_versions = ("g", ("v1", version_one) ∷ []) ∷ [];
    installed_game_version = ("g", meta_one) ∷ [];
  };
  events = [];
}

abbrev after_launch : ProcessManager ℕ
after_launch = add_process format system "g" 7 manager

abbrev playing_one : Client
playing_one =
    emit (update_game "g" (none, some running) none) (mark_running (game_meta "g" "v1") ready)

is_launched :
    launch_process format system "g" ready (manager, ready) ≡ ok (after_launch, playing_one)
unfolding launch_process get new start_process prepare game_version_of open_logs
    fetch_process_handler find_launcher platform_eq native_game_launcher launch_text get_index
    new_format_args push_game_update
is_launched = refl

pub is_ready : Consistent "g" meta_one version_one ready
unfolding get installed_version_data
is_ready = (refl, refl, refl, refl)

launch_process_lem_example :
    (v : String) × (dir : String) × (command : Command) × (child : ℕ) × (get "g" manager.processes
      ≡ none)
    × (playable (get "g" ready.db.game_statuses) ≡ some (v, dir))
    × (prepare format system manager ready (game_meta "g" v) v ≡ ok command)
    × (system.spawn command ≡ ok child)
    × (after_launch.processes
        ≡ insert "g"
            (record { handle = child; start = system.now; manually_killed = false })
            manager.processes)
    × (fetch_state "g" playing_one.db ≡ (none, some running))
    × (playing_one.db.game_statuses ≡ ready.db.game_statuses)
    × (playing_one.events ≡ ready.events ++ update_game "g" (none, some running) none ∷ [])
    × SameElsewhere "g" ready playing_one
launch_process_lem_example =
    launch_process_lem format system "g" ready manager ready after_launch playing_one is_launched

launch_then_finish_example :
    let failed = leb (elapsed_secs 5000000000 65000000000) 2 || not true in
    let status = state_after "g" (exited true) ready in
    (m'' : ProcessManager ℕ) × (c'' : Client) × (on_process_finish "g"
        (exited true)
        65000000000
        (after_launch, playing_one)
      ≡ some (finish_error failed "g", m'', c''))
    × (get "g" m''.processes ≡ none)
    × (fetch_state "g" c''.db ≡ merge_states none status)
    × (c''.events
        ≡ (ready.events ++ update_game "g" (none, some running) none ∷ [])
          ++ finish_events failed "g" status version_one)
    × SameElsewhere "g" ready c''
launch_then_finish_example =
    launch_then_finish format system "g" ready manager ready after_launch playing_one meta_one
      version_one (exited true) 65000000000 is_launched is_ready

abbrev process_one : RunningProcess ℕ
process_one = record { handle = 7; start = 5000000000; manually_killed = false }

abbrev with_process : ProcessManager ℕ
with_process = record manager { processes = ("g", process_one) ∷ [] }

is_running : get "g" with_process.processes ≡ some process_one
unfolding get
is_running = refl
