-- ===== src/Manager/Builder.antt =====
-- src-tauri/download_manager/src/download_manager_builder.rs: the handlers of the manager's signals, and
-- the loop of its thread.
pub mod Parts
pub mod Synced
pub mod Steps
pub mod Returns
pub mod Refinement
pub mod Turns
pub mod Go
use drop_app.Prelude.{
  ℕ, zero, suc, ◌+◌, Bool, true, false, not, ◌&&◌, ◌||◌, Option, none, some, List, [], ◌∷◌, ◌++◌,
  Map, get, insert, remove, same, ◌==◌, if◌then◌else◌,
}
use drop_app.Prelude.Panics.{◌>>=◌}
use drop_app.Database.Metadata.{DownloadableMetadata, metadata_key}
use drop_app.Manager.Flag
use drop_app.Manager.Signals.{
  DownloadManagerSignal, DownloadManagerStatus, DownloadStatus, ApplicationDownloadError, go, stop,
  completed, queue, finish, cancel, error, update_ui_queue, update_ui_stats, paused, empty, queued,
}
use drop_app.Manager.Queue.{front, pop_front, append, remove_at, exists, get_by_meta}
use drop_app.Manager.Downloadable.{Downloadable}
use drop_app.Manager.State.{
  Manager, Effect, is_queued, update, is_front, send, set_status, set_flag_at, join_thread,
  cleanup_current_download, stop_and_wait_current_download, remove_and_cleanup_front_download,
  queue_items, push_ui_queue_update, push_ui_stats_update,
}

module _ {Agent Env : Type 0} (d : Downloadable Agent Env) where
  abbrev M : Type 0
  M = Manager Agent Env

  -- The agents `on_queued` is called for: all but the front's that do not say that they are queued.
  abbrev pub must_requeue : DownloadableMetadata → Agent → Bool
  must_requeue meta a = not (same (d.metadata a) meta) && not (is_queued (d.status a))

  unfoldable pub requeue_at : DownloadableMetadata → ℕ → M → Option M
  requeue_at meta i m =
      if must_requeue meta (m.agents i)
      then (d.on_queued (m.agents i) m.env >>= λ (a, env).
          some (record m { agents = update m.agents i a; env = env }))
      else some m

  unfoldable pub requeue_others : DownloadableMetadata → Map DownloadableMetadata ℕ → M → Option M
  requeue_others meta [] m = some m
  requeue_others meta ((k, i) ∷ r) m = requeue_at meta i m >>= λ m'. requeue_others meta r m'

  -- The thread is spawned: its address and that of the flag are the agent's.
  abbrev pub start_download : ℕ → M → M
  start_download i m = set_flag_at d (some i) Flag.go (record m {
    active_control_flag = some i;
    thread = some i;
    status = DownloadManagerStatus.downloading;
  })

  unfoldable pub go_front : DownloadableMetadata → M → Option M
  go_front meta m = do
    i ← get meta m.registry
    if is_queued (d.status (m.agents i))
        then (requeue_others meta m.registry m >>= λ m'. some (start_download i m'))
        else some m

  abbrev pub go_next : Option DownloadableMetadata → M → Option M
  go_next none m = some m
  go_next (some meta) m = go_front meta m

  unfoldable pub manage_go_signal : M → Option M
  manage_go_signal m = elim m.registry [ [] ↦ some m | entry ∷ r ↦ go_next (front m.entries) m ]

  unfoldable pub manage_stop_signal : M → M
  manage_stop_signal m = elim m.active_control_flag [
    | none ↦ m
    | some i ↦ set_flag_at d (some i) Flag.stop (set_status d paused m)
  ]

  -- The agent of the signal is at the address `i`.
  unfoldable pub manage_queue_signal : ℕ → M → Option M
  manage_queue_signal i m =
      let meta = d.metadata (m.agents i) in
      if exists meta m.entries
      then some m
      else d.on_queued (m.agents i) m.env >>= λ (a, env). some (
          send d update_ui_queue (record m {
            agents = update m.agents i a;
            env = env;
            entries = append meta m.entries;
            registry = insert meta i m.registry;
          }))

  unfoldable pub manage_completed_signal : Effect Agent Env → DownloadableMetadata → M → Option M
  manage_completed_signal work meta m = do
    m' ←
        (if is_front (front m.entries) meta
          then remove_and_cleanup_front_download d work meta m
          else some m)
    shown ← push_ui_queue_update d m'
    some (send d go shown)

  unfoldable pub fail_front : Effect Agent Env → DownloadableMetadata → ℕ → M → Option M
  fail_front work meta i m = d.on_error (m.agents i) m.env >>= λ (a, env).
      remove_and_cleanup_front_download d work meta (
        stop_and_wait_current_download d work
          (record m { agents = update m.agents i a; env = env }))

  abbrev pub fail_current : Effect Agent Env → Option DownloadableMetadata → M → Option M
  fail_current work none m = some m
  fail_current work (some meta) m = elim (get meta m.registry) [
    | none ↦ some m
    | some i ↦ fail_front work meta i m
  ]

  unfoldable pub manage_error_signal : Effect Agent Env → M → Option M
  manage_error_signal work m = do
    m' ← fail_current work (front m.entries) m
    shown ← push_ui_queue_update d m'
    some (set_status d DownloadManagerStatus.failed shown)

  unfoldable pub cancel_front : Effect Agent Env → DownloadableMetadata → ℕ → M → Option M
  cancel_front work meta i m = do
    env ← d.on_cancelled (m.agents i) m.env
    let stopped =
        stop_and_wait_current_download d work (set_status d paused (record m { env = env }))
    let cleaned =
        cleanup_current_download d work (record stopped { entries = pop_front stopped.entries })
    some (record cleaned { registry = remove meta cleaned.registry })

  abbrev pub cancel_at : DownloadableMetadata → ℕ → Option ℕ → M → Option M
  cancel_at meta i none m = some m
  cancel_at meta i (some index) m = do
    env ← d.on_cancelled (m.agents i) m.env
    some (record m {
      env = env;
      entries = remove_at index m.entries;
      registry = remove meta m.registry;
    })

  unfoldable pub cancel_found : Effect Agent Env → DownloadableMetadata → ℕ → M → Option M
  cancel_found work meta i m =
      if is_front (front m.entries) meta
      then cancel_front work meta i m
      else cancel_at meta i (get_by_meta meta m.entries) m

  unfoldable pub manage_cancel_signal : Effect Agent Env → DownloadableMetadata → M → Option M
  manage_cancel_signal work meta m = do
    m' ← (elim (get meta m.registry) [ none ↦ some m | some i ↦ cancel_found work meta i m ])
    push_ui_queue_update d (send d go m')

  -- One turn of `manage_queue`: whether the loop goes on, and the state after the signal.
  unfoldable pub handle : Effect Agent Env → DownloadManagerSignal → M → Option (Bool × M)
  handle work go m = manage_go_signal m >>= λ m'. some (true, m')
  handle work stop m = some (true, manage_stop_signal m)
  handle work (completed meta) m = manage_completed_signal work meta m >>= λ m'. some (true, m')
  handle work (queue i) m = manage_queue_signal i m >>= λ m'. some (true, m')
  handle work (error e) m = manage_error_signal work m >>= λ m'. some (true, m')
  handle work update_ui_queue m = push_ui_queue_update d m >>= λ m'. some (true, m')
  handle work (update_ui_stats kbs time) m = some (true, push_ui_stats_update d kbs time m)
  handle work finish m = some (false, stop_and_wait_current_download d work m)
  handle work (cancel meta) m = manage_cancel_signal work meta m >>= λ m'. some (true, m')

  -- The loop, on the signals in the order in which they are received. What else the others do to the
  -- channel is in that order.
  unfoldable pub manage_queue : List (Effect Agent Env × DownloadManagerSignal) → M → Option M
  manage_queue [] m = some m
  manage_queue ((work, s) ∷ r) m =
      handle work s m >>= λ (goes, m'). elim goes [ true ↦ manage_queue r m' | false ↦ some m' ]
