-- ===== src/Manager/State.antt =====
-- The state of the manager of src-tauri/download_manager/src/download_manager_builder.rs, and what its
-- handlers share. Agents are shared, so the registry holds addresses, and one table holds the agents.
-- Joining the download's thread lets it do the rest of its work, which is an argument: the effect that
-- it has on the agents, on their environment and on the channel. (A thread that is finished already
-- has none.) What the interface is shown of a download leaves out the progress as a float.
use drop_app.Prelude.{
  ℕ, Bool, true, false, Option, none, some, List, [], ◌∷◌, ◌++◌, Map, get, remove, same, ◌==◌,
  if◌then◌else◌,
}
use drop_app.Prelude.Panics.{◌>>=◌}
use drop_app.Database.Metadata.{DownloadableMetadata, metadata_key}
use drop_app.Manager.Flag
use drop_app.Manager.Signals.{
  DownloadManagerSignal, DownloadManagerStatus, DownloadStatus, paused, empty, queued,
}
use drop_app.Manager.Queue.{pop_front}
use drop_app.Manager.Downloadable.{Downloadable}

pub record QueueItem : Type 0 where
  pub meta : DownloadableMetadata
  pub status : DownloadStatus
  pub current : ℕ
  pub max_bytes : ℕ

pub data ManagerEvent : Type 0 where
  update_queue : List QueueItem → ManagerEvent
  update_stats : ℕ → ℕ → ManagerEvent

pub record Manager (Agent Env : Type 0) : Type 0 where
  pub registry : Map DownloadableMetadata ℕ
  pub entries : List DownloadableMetadata
  pub agents : ℕ → Agent
  pub env : Env
  pub sent : List DownloadManagerSignal
  pub events : List ManagerEvent
  pub status : DownloadManagerStatus
  pub thread : Option ℕ
  pub active_control_flag : Option ℕ
  pub progress : Option ℕ

-- What the download's thread still does once it is told to stop, or that it is waited for.
abbrev pub Effect : Type 0 → Type 0 → Type 0
Effect Agent Env = (ℕ → Agent) → Env → (ℕ → Agent) × Env × List DownloadManagerSignal

abbrev pub is_queued : DownloadStatus → Bool
is_queued queued = true
is_queued _ = false

abbrev pub update {ℓ} : {A : Type ℓ} → (ℕ → A) → ℕ → A → ℕ → A
update f i a j = if i == j then a else f j

abbrev pub is_front : Option DownloadableMetadata → DownloadableMetadata → Bool
is_front none meta = false
is_front (some k) meta = same k meta

module _ {Agent Env : Type 0} (d : Downloadable Agent Env) where
  abbrev M : Type 0
  M = Manager Agent Env

  abbrev pub send : DownloadManagerSignal → M → M
  send s m = record m { sent = m.sent ++ s ∷ [] }

  abbrev pub set_status : DownloadManagerStatus → M → M
  set_status s m = record m { status = s }

  abbrev pub set_flag_at : Option ℕ → Flag.DownloadThreadControlFlag → M → M
  set_flag_at none f m = m
  set_flag_at (some i) f m = record m {
    agents = update m.agents i (d.set_control_flag f (m.agents i));
  }

  abbrev pub join_thread : Option ℕ → Effect Agent Env → M → M
  join_thread none work m = m
  join_thread (some i) work m =
      let (agents, env, signals) = work m.agents m.env in
      record m { agents = agents; env = env; sent = m.sent ++ signals; thread = none }

  unfoldable pub cleanup_current_download : Effect Agent Env → M → M
  cleanup_current_download work m =
      join_thread m.thread work (record m { active_control_flag = none; progress = none })

  unfoldable pub stop_and_wait_current_download : Effect Agent Env → M → M
  stop_and_wait_current_download work m =
      join_thread m.thread work (set_flag_at m.active_control_flag Flag.stop (set_status paused m))

  unfoldable pub remove_and_cleanup_front_download :
      Effect Agent Env → DownloadableMetadata → M → Option M
  remove_and_cleanup_front_download work meta m = do
    agent ← get meta m.registry
    some (
        cleanup_current_download work
          (record m { entries = pop_front m.entries; registry = remove meta m.registry }))

  queue_item : DownloadableMetadata → Agent → QueueItem
  queue_item meta a = record {
    meta = meta;
    status = d.status a;
    current = d.progress_sum a;
    max_bytes = d.progress_max a;
  }

  -- An entry with no agent in the registry panics.
  unfoldable pub queue_items : M → List DownloadableMetadata → Option (List QueueItem)
  unfolding queue_item
  queue_items m [] = some []
  queue_items m (k ∷ ks) =
      let rest = queue_items m ks in
      get k m.registry >>= λ i. rest >>= λ items. some (queue_item k (m.agents i) ∷ items)

  unfoldable pub push_ui_queue_update : M → Option M
  push_ui_queue_update m = do
    items ← queue_items m m.entries
    some (record m { events = m.events ++ update_queue items ∷ [] })

  unfoldable pub push_ui_stats_update : ℕ → ℕ → M → M
  push_ui_stats_update kbs time m = record m { events = m.events ++ update_stats kbs time ∷ [] }

-- The manager's state when its thread starts.
unfoldable pub build : {Agent Env : Type 0} → (ℕ → Agent) → Env → Manager Agent Env
build agents env = record {
  registry = [];
  entries = [];
  agents = agents;
  env = env;
  sent = [];
  events = [];
  status = empty;
  thread = none;
  active_control_flag = none;
  progress = none;
}
