-- ===== src/Tests/Queue.antt =====
-- A manager of plain downloads, of which each is a status and a flag.
use mathlib.Core.Logic.{◌↔◌}
use drop_app.Prelude.{
  ℕ, zero, suc, ◌≡◌, refl, Bool, true, false, none, some, [], ◌∷◌, get, contains, Distinct,
  get_elem?, arith,
}
use drop_app.Database.Metadata.{DownloadableMetadata, metadata_eq, metadata_key, download_type_eq}
use drop_app.Manager.Flag.{DownloadThreadControlFlag, go, stop}
use drop_app.Manager.Signals.{queue, downloading, paused, DownloadStatus, DownloadManagerStatus}
use drop_app.Manager.Downloadable.{Downloadable}
use drop_app.Manager.Builder.{
  handle, manage_go_signal, manage_stop_signal, go_front, requeue_others, requeue_at,
  manage_queue_signal,
}
use drop_app.Manager.State.{Manager, Effect, update}
use drop_app.Manager.Builder.Synced.{Synced}
use drop_app.Manager.Builder.Refinement.{queue_after, goes_on, Follows, handle_lem}
use drop_app.Manager.Builder.Go.{OthersWait, manage_go_signal-starts, stop_then_go}
use drop_app.Manager.Frontend.{DownloadManager, rearrange}
use drop_app.Manager.Frontend.Rearrange.{rearrange_lem}
use drop_app.Manager.Thread.{Round, ok, finished, run_thread, EndsWell, run_thread_lem}
use drop_app.Tests.Client.{meta_one}

abbrev meta_two : DownloadableMetadata
meta_two = record meta_one { id = "h" }

abbrev PlainAgent : Type 0
PlainAgent = DownloadableMetadata × DownloadStatus × DownloadThreadControlFlag

abbrev waiting : DownloadableMetadata → PlainAgent
waiting meta = (meta, DownloadStatus.queued, stop)

abbrev plain : Downloadable PlainAgent ℕ
plain = record {
  metadata = λ a. a.0;
  status = λ a. a.1;
  progress_sum = λ a. 0;
  progress_max = λ a. 0;
  control_flag = λ a. a.2;
  set_control_flag = λ f a. (a.0, a.1, f);
  on_queued = λ a e. some ((a.0, DownloadStatus.queued, a.2), e);
  on_error = λ a e. some ((a.0, DownloadStatus.failed, a.2), e);
  on_cancelled = λ a e. some e;
  get_control_flag = λ f a. refl;
  metadata-set_control_flag = λ f a. refl;
  status-set_control_flag = λ f a. refl;
  metadata-on_queued = λ a e a' e' h. cc;
  status-on_queued = λ a e a' e' h. cc;
  metadata-on_error = λ a e a' e' h. cc;
}

-- A thread that has nothing left to do.
abbrev idle : Effect PlainAgent ℕ
idle agents env = (agents, env, [])

abbrev agents_one : ℕ → PlainAgent
agents_one zero = waiting meta_one
agents_one (suc zero) = (meta_two, DownloadStatus.downloading, stop)
agents_one (suc (suc i)) = waiting meta_two

-- Two downloads, of which the first is at the front.
abbrev pair : Manager PlainAgent ℕ
pair = record {
  registry = (meta_one, 0) ∷ (meta_two, 1) ∷ [];
  entries = meta_one ∷ meta_two ∷ [];
  agents = agents_one;
  env = 0;
  sent = [];
  events = [];
  status = DownloadManagerStatus.empty;
  thread = none;
  active_control_flag = none;
  progress = none;
}

pair-Synced : Synced pair
unfolding contains get metadata_eq download_type_eq
pair-Synced = (λ k. ground arith, (refl, (refl, tt)))

-- The state after the download that is there is queued again.
again_queued : handle plain idle (queue 0) pair ≡ some (true, pair)
unfolding handle manage_queue_signal contains metadata_eq download_type_eq
again_queued = refl

handle_lem_example :
    (true ≡ goes_on (queue 0))
    × Follows (queue_after (λ a. (agents_one a).0) (queue 0) pair.entries) pair
handle_lem_example = handle_lem plain idle (queue 0) pair true pair pair-Synced again_queued

abbrev started : Manager PlainAgent ℕ
started = record pair {
  agents = update (update agents_one 1 (waiting meta_two)) 0 (meta_one, DownloadStatus.queued, go);
  status = DownloadManagerStatus.downloading;
  thread = some 0;
  active_control_flag = some 0;
}

pair_starts : manage_go_signal plain pair ≡ some started
unfolding manage_go_signal go_front get metadata_eq download_type_eq requeue_others requeue_at
pair_starts = refl

first_known : get meta_one pair.registry ≡ some 0
unfolding get metadata_eq download_type_eq
first_known = refl

manage_go_signal-starts_example :
    (started.thread ≡ some 0)
    × (started.active_control_flag ≡ some 0)
    × (plain.control_flag (started.agents 0) ≡ go)
    × (started.status ≡ downloading)
    × OthersWait plain meta_one started.agents pair.registry
    × (started.agents 2 ≡ pair.agents 2)
    × (started.entries ≡ pair.entries)
    × (started.registry ≡ pair.registry)
manage_go_signal-starts_example =
    manage_go_signal-starts plain meta_one 0 2 pair started refl first_known refl refl refl
      pair_starts

-- The first download runs.
abbrev busy : Manager PlainAgent ℕ
busy = record pair {
  agents = update agents_one 0 (meta_one, DownloadStatus.downloading, go);
  active_control_flag = some 0;
}

stop_then_go_example :
    let m' = manage_stop_signal plain busy in
    (manage_go_signal plain m' ≡ some m')
    × (plain.control_flag (m'.agents 0) ≡ stop)
    × (m'.status ≡ paused)
stop_then_go_example = stop_then_go plain meta_one 0 busy refl first_known refl refl

abbrev frontend_one : DownloadManager
frontend_one = record { download_queue = meta_one ∷ meta_two ∷ []; sent = [] }

rearrange_lem_example :
    (m' : DownloadManager) × (rearrange 0 1 frontend_one ≡ some m')
    × ((k : DownloadableMetadata)
        → contains m'.download_queue k ≡ contains frontend_one.download_queue k)
    × Distinct m'.download_queue
    × (get_elem? m'.download_queue 1 ≡ get_elem? frontend_one.download_queue 0)
rearrange_lem_example =
    rearrange_lem 0 1 frontend_one (omega arith) (omega arith) pair-Synced.1 refl

-- The first validation finds a fault, the second none.
abbrev round_of : Bool → Round
round_of valid = record {
  download_result = ok true;
  flag_after_download = go;
  validate_result = ok valid;
  flag_after_validate = go;
}

run_thread_lem_example :
    (run_thread meta_one (round_of false ∷ round_of true ∷ []) ≡ some (finished meta_one))
    ↔ EndsWell (round_of false ∷ round_of true ∷ [])
run_thread_lem_example = run_thread_lem meta_one (round_of false ∷ round_of true ∷ [])
