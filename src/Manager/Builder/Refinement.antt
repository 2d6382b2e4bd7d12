-- ===== src/Manager/Builder/Refinement.antt =====
-- src-tauri/download_manager/src/download_manager_builder.rs: the loop of the manager's thread
-- refines a queue of keys without duplicates, and keeps the registry of agents in step with it.
use drop_app.Prelude.{
  ℕ, ◌≡◌, refl, ◌∙◌, sym, Bool, true, false, none, some, List, [], ◌∷◌, ◌++◌, erase, erase_absent,
  contains, arith, if◌then◌else◌, Bool-cases, Option-cases, inl, inr,
}
use drop_app.Prelude.Panics.{>>=-eq-some}
use drop_app.Database.Metadata.{DownloadableMetadata, metadata_key}
use drop_app.Manager.Signals.{
  DownloadManagerSignal, go, stop, completed, queue, finish, cancel, error, update_ui_queue,
  update_ui_stats,
}
use drop_app.Manager.Queue.{front, pop_front, append, exists}
use drop_app.Manager.Downloadable.{Downloadable}
use drop_app.Manager.Builder.{
  handle, manage_go_signal, manage_stop_signal, manage_queue_signal, manage_completed_signal,
  manage_error_signal, manage_cancel_signal,
}
use drop_app.Manager.State.{
  Manager, Effect, is_front, push_ui_queue_update, push_ui_stats_update,
  stop_and_wait_current_download,
}
use drop_app.Manager.Builder.Parts.{Keeps, pop_front-erase, stop_and_wait-Keeps, push_ui-Keeps}
use drop_app.Manager.Builder.Synced.{Synced, Keeps-Synced, Loses-Synced, Gains-Synced}
use drop_app.Manager.Builder.Steps.{
  go-Keeps, stop-Keeps, queue-Gains, queue-Keeps, completed-Loses, completed-Keeps, cancel-Loses,
  cancel-Keeps, error-Loses, error-Keeps,
}

-- The queue that a signal leaves: what the program's users can rely on, without agents or threads. A
-- signal that queues a download carries its key here.
abbrev pub queue_after :
    (ℕ → DownloadableMetadata)
    → DownloadManagerSignal
    → List DownloadableMetadata
    → List DownloadableMetadata
queue_after meta_at (queue i) ks = if exists (meta_at i) ks then ks else ks ++ meta_at i ∷ []
queue_after meta_at (completed k) ks = if is_front (front ks) k then pop_front ks else ks
queue_after meta_at (cancel k) ks = erase k ks
queue_after meta_at (error e) ks = pop_front ks
queue_after meta_at _ ks = ks

abbrev pub goes_on : DownloadManagerSignal → Bool
goes_on finish = false
goes_on _ = true

-- What a turn of the loop owes to the abstract queue.
module _ {Agent Env : Type 0} where
  abbrev pub Follows : List DownloadableMetadata → Manager Agent Env → Type 0
  Follows ks m = (m.entries ≡ ks) × Synced m

pub front-exists :
    (k : DownloadableMetadata) (ks : List DownloadableMetadata)
    → front ks ≡ some k
    → exists k ks ≡ true
unfolding contains
front-exists k [] h = cc
front-exists k (j ∷ js) h = ground (arith, metadata_key.eq-refl k)

pub is_front-exists :
    (k : DownloadableMetadata) (ks : List DownloadableMetadata)
    → is_front (front ks) k ≡ true
    → exists k ks ≡ true
unfolding contains
is_front-exists k [] h = cc
is_front-exists k (j ∷ js) h = ground arith

pop_front-none : (ks : List DownloadableMetadata) → front ks ≡ none → ks ≡ pop_front ks
unfolding pop_front
pop_front-none [] h = refl
pop_front-none (j ∷ js) h = cc

module _ {Agent Env : Type 0} (d : Downloadable Agent Env) where
  kept : (m m' : Manager Agent Env) → Synced m → Keeps m m' → Follows m.entries m'
  kept m m' s h = (h.0, Keeps-Synced m m' h s)

  after_queue :
      (i : ℕ) (m m' : Manager Agent Env)
      → Synced m
      → manage_queue_signal d i m ≡ some m'
      → Follows (queue_after (λ a. d.metadata (m.agents a)) (queue i) m.entries) m'
  unfolding manage_queue_signal append
  after_queue i m m' s e = elim (Bool-cases (exists (d.metadata (m.agents i)) m.entries)) [
    | inl known ↦ let h = queue-Keeps d i m m' known e in (rw (h.0, known), Keeps-Synced m m' h s)
    | inr new ↦
        let h = queue-Gains d i m m' new e in
        let s' = Gains-Synced (d.metadata (m.agents i)) i m m' new h s in (rw (h.0, new), s')
  ]

  after_completed :
      (work : Effect Agent Env) (k : DownloadableMetadata) (m m' : Manager Agent Env)
      → Synced m
      → manage_completed_signal d work k m ≡ some m'
      → Follows (queue_after (λ a. d.metadata (m.agents a)) (completed k) m.entries) m'
  after_completed work k m m' s e = elim (Bool-cases (is_front (front m.entries) k)) [
    | inl first ↦
        let h = completed-Loses d work k m m' first e in
        (rw (h.0, first, pop_front-erase k m.entries first), Loses-Synced k m m' h s)
    | inr later ↦
        let h = completed-Keeps d work k m m' later e in (rw (h.0, later), Keeps-Synced m m' h s)
  ]

  after_cancel :
      (work : Effect Agent Env) (k : DownloadableMetadata) (m m' : Manager Agent Env)
      → Synced m
      → manage_cancel_signal d work k m ≡ some m'
      → Follows (erase k m.entries) m'
  after_cancel work k m m' s e = elim (Bool-cases (exists k m.entries)) [
    | inl known ↦
        let h = cancel-Loses d work k m m' known (sym (s.0 k) ∙ known) e in
        (h.0, Loses-Synced k m m' h s)
    | inr unknown ↦
        let h = cancel-Keeps d work k m m' (sym (s.0 k) ∙ unknown) e in
        (h.0 ∙ sym (erase_absent k m.entries unknown), Keeps-Synced m m' h s)
  ]

  after_error :
      (work : Effect Agent Env) (m m' : Manager Agent Env)
      → Synced m
      → manage_error_signal d work m ≡ some m'
      → Follows (pop_front m.entries) m'
  after_error work m m' s e = elim (Option-cases (front m.entries)) [
    | inl none_left ↦
        let h = error-Keeps d work m m' none_left e in
        (h.0 ∙ pop_front-none m.entries none_left, Keeps-Synced m m' h s)
    | inr (k, first) ↦
        let h = error-Loses d work k m m' first (sym (s.0 k) ∙ front-exists k m.entries first) e in
        (
          h.0 ∙ sym (pop_front-erase k m.entries (rw (first, metadata_key.eq-refl k))),
          Loses-Synced k m m' h s,
        )
  ]

  -- Whatever the signal and whatever the download's thread does, a turn that starts with queue and
  -- registry in step and does not panic leaves the queue that the abstract one is after the signal,
  -- and leaves queue and registry in step; only `Finish` ends the loop.
  pub handle_lem :
      (work : Effect Agent Env) (s : DownloadManagerSignal) (m : Manager Agent Env) (c : Bool)
      (m' : Manager Agent Env)
      → Synced m
      → handle d work s m ≡ some (c, m')
      → (c ≡ goes_on s) × Follows (queue_after (λ a. d.metadata (m.agents a)) s m.entries) m'
  unfolding handle push_ui_stats_update
  handle_lem work go m c m' s e =
      let (n, h, done) = >>=-eq-some (manage_go_signal d m) _ e in
      ground (arith, kept m n s (go-Keeps d m n h))
  handle_lem work stop m c m' s e =
      ground (arith, kept m (manage_stop_signal d m) s (stop-Keeps d m))
  handle_lem work (completed k) m c m' s e =
      let (n, h, done) = >>=-eq-some (manage_completed_signal d work k m) _ e in
      ground (arith, after_completed work k m n s h)
  handle_lem work (queue i) m c m' s e =
      let (n, h, done) = >>=-eq-some (manage_queue_signal d i m) _ e in
      ground (arith, after_queue i m n s h)
  handle_lem work (error x) m c m' s e =
      let (n, h, done) = >>=-eq-some (manage_error_signal d work m) _ e in
      ground (arith, after_error work m n s h)
  handle_lem work update_ui_queue m c m' s e =
      let (n, h, done) = >>=-eq-some (push_ui_queue_update d m) _ e in
      ground (arith, kept m n s (push_ui-Keeps d m n h))
  handle_lem work (update_ui_stats kbs time) m c m' s e =
      ground (arith, kept m (push_ui_stats_update d kbs time m) s (refl, refl))
  handle_lem work finish m c m' s e =
      ground
        (arith, kept m (stop_and_wait_current_download d work m) s (stop_and_wait-Keeps d work m))
  handle_lem work (cancel k) m c m' s e =
      let (n, h, done) = >>=-eq-some (manage_cancel_signal d work k m) _ e in
      ground (arith, after_cancel work k m n s h)
