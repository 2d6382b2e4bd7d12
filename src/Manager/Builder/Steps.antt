-- ===== src/Manager/Builder/Steps.antt =====
-- src-tauri/download_manager/src/download_manager_builder.rs: each handler against the abstract queue.
use drop_app.Prelude.{
  ℕ, ◌≡◌, ◌∙◌, true, false, Option, none, some, get, arith, Bool-cases, Option-cases, inl, inr,
  contains_key,
}
use drop_app.Prelude.Panics.{>>=-eq-some}
use drop_app.Database.Metadata.{DownloadableMetadata, metadata_key}
use drop_app.Manager.Signals.{go, paused}
use drop_app.Manager.Queue.{
  front, pop_front, exists, get_by_meta, remove_at-get_by_meta, is_some-get_by_meta,
}
use drop_app.Manager.Downloadable.{Downloadable}
use drop_app.Manager.Builder.{
  manage_go_signal, manage_stop_signal, manage_queue_signal, manage_completed_signal,
  manage_error_signal, manage_cancel_signal, go_front, go_next, fail_current, fail_front,
  cancel_front, cancel_found, cancel_at, requeue_others,
}
use drop_app.Manager.State.{
  Manager, Effect, is_front, push_ui_queue_update, remove_and_cleanup_front_download,
  stop_and_wait_current_download, send, set_status, is_queued, update,
}
use drop_app.Manager.Builder.Parts.{
  Keeps, Loses, pop_front-erase, cleanup-Keeps, stop_and_wait-Keeps, remove_front-Loses,
  push_ui-Keeps, requeue_others-Keeps,
}
use drop_app.Manager.Builder.Synced.{Gains}

module _ {Agent Env : Type 0} (d : Downloadable Agent Env) where
  go_front-Keeps :
      (k : DownloadableMetadata) (m m' : Manager Agent Env) → go_front d k m ≡ some m' → Keeps m m'
  unfolding go_front
  go_front-Keeps k m m' e =
      let (i, found, rest) = >>=-eq-some (get k m.registry) _ e in
      elim (Bool-cases (is_queued (d.status (m.agents i)))) [
        | inl waiting ↦
            let (n, requeued, done) =
              >>=-eq-some (requeue_others d k m.registry m) _ (rw waiting at rest) in
            ground (arith, requeue_others-Keeps d k m.registry m n requeued)
        | inr going ↦ ground arith
      ]

  go_next-Keeps :
      (o : Option DownloadableMetadata) (m m' : Manager Agent Env)
      → go_next d o m ≡ some m'
      → Keeps m m'
  go_next-Keeps none m m' e = ground arith
  go_next-Keeps (some k) m m' e = go_front-Keeps k m m' e

  pub go-Keeps : (m m' : Manager Agent Env) → manage_go_signal d m ≡ some m' → Keeps m m'
  unfolding manage_go_signal
  go-Keeps m m' e = ground (arith, go_next-Keeps (front m.entries) m m')

  pub stop-Keeps : (m : Manager Agent Env) → Keeps m (manage_stop_signal d m)
  unfolding manage_stop_signal
  stop-Keeps m = ground arith

  pub queue-Keeps :
      (i : ℕ) (m m' : Manager Agent Env)
      → exists (d.metadata (m.agents i)) m.entries ≡ true
      → manage_queue_signal d i m ≡ some m'
      → Keeps m m'
  unfolding manage_queue_signal
  queue-Keeps i m m' known e = ground arith

  pub queue-Gains :
      (i : ℕ) (m m' : Manager Agent Env)
      → exists (d.metadata (m.agents i)) m.entries ≡ false
      → manage_queue_signal d i m ≡ some m'
      → Gains (d.metadata (m.agents i)) i m m'
  unfolding manage_queue_signal
  queue-Gains i m m' new e =
      let (p, found, done) = >>=-eq-some (d.on_queued (m.agents i) m.env) _ (rw new at e) in
      ground arith

  pub completed-Loses :
      (work : Effect Agent Env) (k : DownloadableMetadata) (m m' : Manager Agent Env)
      → is_front (front m.entries) k ≡ true
      → manage_completed_signal d work k m ≡ some m'
      → Loses k m m'
  unfolding manage_completed_signal
  completed-Loses work k m m' h e =
      let (n, removed, rest) =
        >>=-eq-some (remove_and_cleanup_front_download d work k m) _ (rw h at e) in
      let (shown, pushed, done) = >>=-eq-some (push_ui_queue_update d n) _ rest in
      ground (arith, remove_front-Loses d work k m n h removed, push_ui-Keeps d n shown pushed)

  pub completed-Keeps :
      (work : Effect Agent Env) (k : DownloadableMetadata) (m m' : Manager Agent Env)
      → is_front (front m.entries) k ≡ false
      → manage_completed_signal d work k m ≡ some m'
      → Keeps m m'
  unfolding manage_completed_signal
  completed-Keeps work k m m' h e =
      let (shown, pushed, done) = >>=-eq-some (push_ui_queue_update d m) _ (rw h at e) in
      ground (arith, push_ui-Keeps d m shown pushed)

  pub fail_front-Loses :
      (work : Effect Agent Env) (k : DownloadableMetadata) (i : ℕ) (m m' : Manager Agent Env)
      → is_front (front m.entries) k ≡ true
      → fail_front d work k i m ≡ some m'
      → Loses k m m'
  unfolding fail_front
  fail_front-Loses work k i m m' h e =
      let (p, called, rest) = >>=-eq-some (d.on_error (m.agents i) m.env) _ e in
      let n = record m { agents = update m.agents i p.0; env = p.1 } in
      let stopped = stop_and_wait_current_download d work n in
      let kept = stop_and_wait-Keeps d work n in
      let lost = remove_front-Loses d work k stopped m' (rw (kept.0, h)) rest in
      (lost.0 ∙ rw kept.0, lost.1 ∙ rw kept.1)

  cancel_front-Loses :
      (work : Effect Agent Env) (k : DownloadableMetadata) (i : ℕ) (m m' : Manager Agent Env)
      → is_front (front m.entries) k ≡ true
      → cancel_front d work k i m ≡ some m'
      → Loses k m m'
  unfolding cancel_front
  cancel_front-Loses work k i m m' h e =
      let (env, called, done) = >>=-eq-some (d.on_cancelled (m.agents i) m.env) _ e in
      let n = set_status d paused (record m { env = env }) in
      let stopped = stop_and_wait_current_download d work n in
      let kept = stop_and_wait-Keeps d work n in
      let popped = record stopped { entries = pop_front stopped.entries } in
      let cleaned = cleanup-Keeps d work popped in
      ground (arith, kept.0, kept.1, cleaned.0, cleaned.1, pop_front-erase k m.entries h)

  cancel_at-Loses :
      (k : DownloadableMetadata) (i : ℕ) (m m' : Manager Agent Env)
      → exists k m.entries ≡ true
      → cancel_at d k i (get_by_meta k m.entries) m ≡ some m'
      → Loses k m m'
  cancel_at-Loses k i m m' h e = elim (Option-cases (get_by_meta k m.entries)) [
    | inl missing ↦ ground (arith, is_some-get_by_meta k m.entries)
    | inr (index, at_index) ↦
        let (env, called, done) =
          >>=-eq-some (d.on_cancelled (m.agents i) m.env) _ (rw at_index at e) in
        ground (arith, remove_at-get_by_meta k m.entries index at_index)
  ]

  pub cancel_found-Loses :
      (work : Effect Agent Env) (k : DownloadableMetadata) (i : ℕ) (m m' : Manager Agent Env)
      → exists k m.entries ≡ true
      → cancel_found d work k i m ≡ some m'
      → Loses k m m'
  unfolding cancel_found
  cancel_found-Loses work k i m m' h e = elim (Bool-cases (is_front (front m.entries) k)) [
    | inl is_first ↦ cancel_front-Loses work k i m m' is_first (rw is_first at e)
    | inr is_later ↦ cancel_at-Loses k i m m' h (rw is_later at e)
  ]

  pub cancel-Loses :
      (work : Effect Agent Env) (k : DownloadableMetadata) (m m' : Manager Agent Env)
      → exists k m.entries ≡ true
      → contains_key k m.registry ≡ true
      → manage_cancel_signal d work k m ≡ some m'
      → Loses k m m'
  unfolding manage_cancel_signal
  cancel-Loses work k m m' h known e = elim (Option-cases (get k m.registry)) [
    | inl none_there ↦ ground arith
    | inr (i, at_i) ↦
        let (n, cancelled, rest) = >>=-eq-some (cancel_found d work k i m) _ (rw at_i at e) in
        let shown = push_ui-Keeps d (send d go n) m' rest in
        ground (arith, cancel_found-Loses work k i m n h cancelled, shown.0, shown.1)
  ]

  pub cancel-Keeps :
      (work : Effect Agent Env) (k : DownloadableMetadata) (m m' : Manager Agent Env)
      → contains_key k m.registry ≡ false
      → manage_cancel_signal d work k m ≡ some m'
      → Keeps m m'
  unfolding manage_cancel_signal
  cancel-Keeps work k m m' unknown e = elim (Option-cases (get k m.registry)) [
    | inl none_there ↦ push_ui-Keeps d (send d go m) m' (rw none_there at e)
    | inr (i, at_i) ↦ ground arith
  ]

  pub error-Loses :
      (work : Effect Agent Env) (k : DownloadableMetadata) (m m' : Manager Agent Env)
      → front m.entries ≡ some k
      → contains_key k m.registry ≡ true
      → manage_error_signal d work m ≡ some m'
      → Loses k m m'
  unfolding manage_error_signal
  error-Loses work k m m' h known e = elim (Option-cases (get k m.registry)) [
    | inl none_there ↦ ground arith
    | inr (i, at_i) ↦
        let (n, failed, rest) =
          >>=-eq-some (fail_front d work k i m) _ (rw (h, fail_current, at_i) at e) in
        let (shown, pushed, done) = >>=-eq-some (push_ui_queue_update d n) _ rest in
        ground (
          arith,
          fail_front-Loses work k i m n (rw (h, metadata_key.eq-refl k)) failed,
          push_ui-Keeps d n shown pushed,
        )
  ]

  pub error-Keeps :
      (work : Effect Agent Env) (m m' : Manager Agent Env)
      → front m.entries ≡ none
      → manage_error_signal d work m ≡ some m'
      → Keeps m m'
  unfolding manage_error_signal
  error-Keeps work m m' h e =
      let (shown, pushed, done) = >>=-eq-some (push_ui_queue_update d m) _ (rw h at e) in
      ground (arith, push_ui-Keeps d m shown pushed)
