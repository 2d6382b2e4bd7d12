-- ===== src/Manager/Downloadable.antt =====
-- src-tauri/download_manager/src/downloadable.rs: what the manager asks of an agent. Each method may
-- change the agent and what it shares with the program, its environment; none is a panic. The methods
-- that a download's own thread calls are not among them: what that thread does reaches the manager
-- when it is joined.
use drop_app.Prelude.{ℕ, ◌≡◌, Option, some, is_some, true}
use drop_app.Database.Metadata.{DownloadableMetadata}
use drop_app.Manager.Flag.{DownloadThreadControlFlag}
use drop_app.Manager.Signals.{DownloadStatus, queued}

pub record Downloadable (Agent Env : Type 0) : Type 0 where
  pub metadata : Agent → DownloadableMetadata
  pub status : Agent → DownloadStatus
  pub progress_sum : Agent → ℕ
  pub progress_max : Agent → ℕ
  pub control_flag : Agent → DownloadThreadControlFlag
  pub set_control_flag : DownloadThreadControlFlag → Agent → Agent
  pub on_queued : Agent → Env → Option (Agent × Env)
  pub on_error : Agent → Env → Option (Agent × Env)
  pub on_cancelled : Agent → Env → Option Env
  -- The flag is read as it was set, and a method changes neither the metadata nor more than its own.
  pub get_control_flag :
      (f : DownloadThreadControlFlag) (a : Agent) → control_flag (set_control_flag f a) ≡ f
  pub metadata-set_control_flag :
      (f : DownloadThreadControlFlag) (a : Agent) → metadata (set_control_flag f a) ≡ metadata a
  pub status-set_control_flag :
      (f : DownloadThreadControlFlag) (a : Agent) → status (set_control_flag f a) ≡ status a
  pub metadata-on_queued :
      (a : Agent) (e : Env) (a' : Agent) (e' : Env)
      → on_queued a e ≡ some (a', e')
      → metadata a' ≡ metadata a
  pub status-on_queued :
      (a : Agent) (e : Env) (a' : Agent) (e' : Env)
      → on_queued a e ≡ some (a', e')
      → status a' ≡ queued
  pub metadata-on_error :
      (a : Agent) (e : Env) (a' : Agent) (e' : Env)
      → on_error a e ≡ some (a', e')
      → metadata a' ≡ metadata a

-- No call of a method panics.
pub record HooksReturn {Agent Env : Type 0} (d : Downloadable Agent Env) : Type 0 where
  pub queued_returns : (a : Agent) (e : Env) → is_some (d.on_queued a e) ≡ true
  pub error_returns : (a : Agent) (e : Env) → is_some (d.on_error a e) ≡ true
  pub cancelled_returns : (a : Agent) (e : Env) → is_some (d.on_cancelled a e) ≡ true
