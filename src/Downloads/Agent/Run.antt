-- ===== src/Downloads/Agent/Run.antt =====
-- `run` of src-tauri/games/src/downloads/download_agent.rs: the buckets that are not done are fetched
-- by tasks of a thread pool, each with three attempts. The tasks share nothing that they read but the
-- control flag, so what becomes of them is a table: for each bucket and attempt the result of
-- `download_game_bucket`.
pub mod Attempts
pub mod Resume
pub mod Tasks
use drop_app.Prelude.{
  ℕ, zero, suc, ◌+◌, ◌-◌, Bool, true, false, not, ◌&&◌, ◌||◌, String, Option, none, some, List, [],
  ◌∷◌, ◌++◌, Map, map, insert, string_key, ◌==◌, if◌then◌else◌,
}
use drop_app.Prelude.Outcomes.{Outcome, ok, err, panic, ◌>>=◌, unwrap}
use drop_app.Remote.Error.{RemoteAccessError}
use drop_app.Manager.Progress
use drop_app.Manager.Progress.{ProgressObject}
use drop_app.Manager.Signals.{
  ApplicationDownloadError, not_initialized, communication, disk_full, checksum, lock, io_error,
  download_error, DownloadManagerSignal, error,
}
use drop_app.Downloads.Manifest.{DownloadDrop, DownloadBucket}
use drop_app.Downloads.DropData.{DropData, set_contexts, states, is_done, write}
use drop_app.Downloads.Agent.{GameDownloadAgent, Env, all_checksums, checksums_of, setup_progress}
use drop_app.Downloads.Buckets.{is_empty}

abbrev pub retry_count : ℕ
retry_count = 3

-- One call of `download_game_bucket`.
pub data Attempt : Type 0 where
  finished : Attempt
  stopped : Attempt
  failed : ApplicationDownloadError → Attempt

-- How a task ends.
pub data TaskEnd : Type 0 where
  completed : TaskEnd
  stopped : TaskEnd
  gave_up : ApplicationDownloadError → TaskEnd

unfoldable pub may_retry : ApplicationDownloadError → Bool
may_retry (communication e) = true
may_retry checksum = true
may_retry lock = true
may_retry (io_error e) = true
may_retry _ = false

-- The loop of a task: `left` attempts from the `i`th on. It ends at the last attempt at the latest,
-- so the case of none left is never met.
unfoldable pub attempts : (ℕ → Attempt) → ℕ → ℕ → TaskEnd
attempts fetch i zero = TaskEnd.stopped
attempts fetch i (suc left) =
    let rest = attempts fetch (suc i) left in
    elim (fetch i) [
      | finished ↦ completed
      | stopped ↦ TaskEnd.stopped
      | failed e ↦ if i == retry_count - 1 || not (may_retry e) then gave_up e else rest
    ]

unfoldable pub run_task : (ℕ → Attempt) → TaskEnd
run_task fetch = attempts fetch 0 retry_count

-- The drops of a bucket that are still to be fetched.
unfoldable pub todo_drops : Map String Bool → List DownloadDrop → List DownloadDrop
todo_drops contexts [] = []
todo_drops contexts (d ∷ ds) =
    if is_done contexts d.checksum then todo_drops contexts ds else d ∷ todo_drops contexts ds

-- The others count as progress at once.
unfoldable pub skip_done : ℕ → Map String Bool → List DownloadDrop → ProgressObject → ProgressObject
skip_done i contexts [] p = p
skip_done i contexts (d ∷ ds) p =
    skip_done i contexts ds (if is_done contexts d.checksum then Progress.skip i d.size p else p)

-- A task: the bucket's index and the bucket with the drops to fetch.
abbrev pub Task : Type 0
Task = ℕ × DownloadBucket

abbrev pub add_task : ℕ → DownloadBucket → List DownloadDrop → List Task → List Task
add_task i b [] tasks = tasks
add_task i b (d ∷ ds) tasks = (i, record b { drops = d ∷ ds }) ∷ tasks

-- The loop that spawns the tasks. A bucket whose index has no progress counter panics.
unfoldable pub spawn_tasks :
    Map String Bool → ℕ → List DownloadBucket → ProgressObject → Option (ProgressObject × List Task)
spawn_tasks contexts i [] p = some (p, [])
spawn_tasks contexts i (b ∷ bs) p =
    let rest = spawn_tasks contexts (suc i) bs (skip_done i contexts b.drops p) in
    elim (Progress.handle i p) [
      | none ↦ none
      | some handle ↦ elim rest [
        | none ↦ none
        | some (p', tasks) ↦ some (p', add_task i b (todo_drops contexts b.drops) tasks)
      ]
    ]

abbrev pub task_checksums : TaskEnd → DownloadBucket → List String
task_checksums completed b = checksums_of b.drops
task_checksums TaskEnd.stopped b = []
task_checksums (gave_up e) b = []

abbrev pub task_signals : TaskEnd → List DownloadManagerSignal
task_signals completed = []
task_signals TaskEnd.stopped = []
task_signals (gave_up e) = error e ∷ []

-- What the tasks have fetched, and the errors that they sent.
unfoldable pub newly_completed : (ℕ → ℕ → Attempt) → List Task → List String
newly_completed fetch [] = []
newly_completed fetch ((i, b) ∷ tasks) =
    task_checksums (run_task (fetch i)) b ++ newly_completed fetch tasks

unfoldable pub task_errors : (ℕ → ℕ → Attempt) → List Task → List DownloadManagerSignal
task_errors fetch [] = []
task_errors fetch ((i, b) ∷ tasks) = task_signals (run_task (fetch i)) ++ task_errors fetch tasks

unfoldable pub mark_done : List String → Map String Bool → Map String Bool
mark_done [] m = m
mark_done (x ∷ xs) m = mark_done xs (insert x true m)

unfoldable pub all_done : List (String × Bool) → Bool
all_done [] = true
all_done ((x, b) ∷ r) = b && all_done r

-- After the tasks: the contexts are brought up to date and written. `written` says whether the write
-- of the file succeeded.
unfoldable pub finish_run :
    Bool → List String → GameDownloadAgent → Env → Bool × GameDownloadAgent × Env
finish_run written newly a env =
    let contexts = mark_done newly a.context_map in
    let listed = states contexts (all_checksums a.buckets) in
    let data_of = set_contexts listed a.dropdata in
    (
      all_done listed,
      record a { context_map = contexts; dropdata = data_of },
      record env { file = write written data_of env.file },
    )

-- `contexts` is the request of a context for each version, which may fail.
unfoldable pub run :
    Outcome RemoteAccessError (Unit {0})
    → (ℕ → ℕ → Attempt)
    → Bool
    → GameDownloadAgent
    → Env
    → Outcome RemoteAccessError (Bool × GameDownloadAgent × Env)
run contexts fetch written a env = do
  let ready = setup_progress a
  requested ← contexts
  (p, tasks) ← unwrap (spawn_tasks ready.context_map 0 ready.buckets ready.progress)
  ok (
      finish_run written (newly_completed fetch tasks) (record ready { progress = p })
        (record env { sent = env.sent ++ task_errors fetch tasks }))
