-- ===== src/Downloads/Agent/Run/Tasks.antt =====
-- Which chunks a run asks for, and that it always gets to ask.
use drop_app.Prelude.{
  ℕ, zero, suc, ◌+◌, ◌<◌, ◌≡◌, refl, ◌≢◌, Bool, false, String, none, some, List, [], ◌∷◌, Map,
  arith, if◌then◌else◌, length, replicate, length-replicate, length-map, sum_by, get_elem?, All,
}
use drop_app.Manager.Progress
use drop_app.Manager.Progress.{ProgressObject}
use drop_app.Downloads.Manifest.{DownloadDrop, DownloadBucket}
use drop_app.Downloads.DropData.{is_done}
use drop_app.Downloads.Agent.{GameDownloadAgent, setup_progress, chunk_count}
use drop_app.Downloads.Agent.Run.{Task}

abbrev pub slots : ProgressObject → ℕ
slots p = length p.progress_instances

pub handle_lem : (i : ℕ) (p : ProgressObject) → i < slots p → Progress.handle i p ≡ some i
unfolding Progress.handle
handle_lem i p h = found i p.progress_instances h
  where
    found :
        (j : ℕ) (xs : List ℕ)
        → j < length xs
        → (elim (get_elem? xs j) [ none ↦ none | some x ↦ some i ]) ≡ some i
    found j [] h = absurd (omega arith)
    found zero (x ∷ xs) h = refl
    found (suc j) (x ∷ xs) h = found j xs (omega arith)

pub slots-setup_progress :
    (a : GameDownloadAgent) → slots (setup_progress a).progress ≡ chunk_count a.buckets
unfolding setup_progress Progress.reset Progress.set_size Progress.set_max
slots-setup_progress a = omega (
  arith,
  length-map {B = ℕ} (replicate (chunk_count a.buckets) 0) (λ (x : ℕ). 0),
  length-replicate {A = ℕ} (chunk_count a.buckets) 0,
)

-- Every bucket that was planned holds something.
abbrev pub HasDrops : List DownloadBucket → Type 0
HasDrops = All (λ b. b.drops ≢ [])

-- A task fetches chunks that are not done, at least one.
abbrev pub AllPending : Map String Bool → List Task → Type 0
AllPending contexts =
    All (λ (i, b). (b.drops ≢ []) × All (λ d. is_done contexts d.checksum ≡ false) b.drops)

module _ (w : DownloadDrop → ℕ) where
  abbrev pub task_weight : List Task → ℕ
  task_weight = sum_by (λ (i, b). sum_by w b.drops)

  -- The weight of the drops that are not done.
  pub pending_weight : Map String Bool → List DownloadDrop → ℕ
  pending_weight contexts [] = 0
  pending_weight contexts (d ∷ ds) =
      (if is_done contexts d.checksum then 0 else w d) + pending_weight contexts ds

-- The tasks hold the planned drops that are not done, each as often as it is planned.
abbrev pub Covers : Map String Bool → List DownloadBucket → List Task → Type 0
Covers contexts bs tasks =
    (w : DownloadDrop → ℕ)
    → task_weight w tasks ≡ sum_by (λ b. pending_weight w contexts b.drops) bs
