-- ===== src/Manager/Builder/Turns.antt =====
-- src-tauri/download_manager/src/download_manager_builder.rs: the whole of a turn, and the loop. With a
-- queue and a registry in step and methods that return, no signal makes the manager panic.
use drop_app.Prelude.{
  ℕ, ◌≡◌, refl, ◌∙◌, sym, true, get, arith, Bool-cases, Option-cases, inl, inr, contains_key,
  is_some,
}
use drop_app.Prelude.Panics.{>>=-is_some}
use drop_app.Database.Metadata.{DownloadableMetadata, metadata_key}
use drop_app.Manager.Signals.{
  DownloadManagerSignal, go, stop, completed, queue, finish, cancel, error, update_ui_queue,
  update_ui_stats,
}
use drop_app.Manager.Queue.{front, get_by_meta}
use drop_app.Manager.Downloadable.{Downloadable, HooksReturn}
use drop_app.Manager.Builder.{
  handle, manage_go_signal, manage_queue_signal, manage_completed_signal, manage_error_signal,
  manage_cancel_signal, fail_current, fail_front, cancel_front, cancel_found,
}
use drop_app.Manager.State.{
  Manager, Effect, is_front, push_ui_queue_update, remove_and_cleanup_front_download,
  stop_and_wait_current_download, update, send,
}
use drop_app.Manager.Builder.Parts.{stop_and_wait-Keeps, remove_front-Loses}
use drop_app.Manager.Builder.Synced.{Synced, Loses-Synced}
use drop_app.Manager.Builder.Steps.{fail_front-Loses, cancel_found-Loses}
use drop_app.Manager.Builder.Refinement.{is_front-exists}
use drop_app.Manager.Builder.Returns.{
  push_ui-returns, remove_front-returns, go-returns, queue-returns, front-known,
}

module _ {Agent Env : Type 0} (d : Downloadable Agent Env) (hooks : HooksReturn d) where
  completed-returns :
      (work : Effect Agent Env) (k : DownloadableMetadata) (m : Manager Agent Env)
      → Synced m
      → is_some (manage_completed_signal d work k m) ≡ true
  unfolding manage_completed_signal
  completed-returns work k m s = elim (Bool-cases (is_front (front m.entries) k)) [
    | inl first ↦ rw first (
        >>=-is_some (remove_and_cleanup_front_download d work k m) _
          (remove_front-returns d work k m (sym (s.0 k) ∙ is_front-exists k m.entries first))
          (λ n h.
            >>=-is_some (push_ui_queue_update d n) _
              (push_ui-returns d n (Loses-Synced k m n (remove_front-Loses d work k m n first h) s))
              (λ o g. refl)))
    | inr later ↦
        rw later (>>=-is_some (push_ui_queue_update d m) _ (push_ui-returns d m s) (λ o g. refl))
  ]

  fail_front-returns :
      (work : Effect Agent Env) (k : DownloadableMetadata) (i : ℕ) (m : Manager Agent Env)
      → contains_key k m.registry ≡ true
      → is_some (fail_front d work k i m) ≡ true
  unfolding fail_front
  fail_front-returns work k i m h =
      >>=-is_some (d.on_error (m.agents i) m.env) _ (hooks.error_returns (m.agents i) m.env)
        (λ p called.
          let n = record m { agents = update m.agents i p.0; env = p.1 } in
          let stopped = stop_and_wait_current_download d work n in
          remove_front-returns d work k stopped (rw (stop_and_wait-Keeps d work n).1 h))

  error-returns :
      (work : Effect Agent Env) (m : Manager Agent Env)
      → Synced m
      → is_some (manage_error_signal d work m) ≡ true
  unfolding manage_error_signal
  error-returns work m s = elim (Option-cases (front m.entries)) [
    | inl none_left ↦
        rw none_left
          (>>=-is_some (push_ui_queue_update d m) _ (push_ui-returns d m s) (λ o g. refl))
    | inr (k, first) ↦ elim (Option-cases (get k m.registry)) [
      | inl none_there ↦ ground (arith, front-known d hooks m k s first)
      | inr (i, at_i) ↦
          rw (first, fail_current, at_i)
            (>>=-is_some (fail_front d work k i m) _
              (fail_front-returns work k i m (front-known d hooks m k s first))
              (λ n h.
                >>=-is_some (push_ui_queue_update d n) _
                  (push_ui-returns d n (
                    Loses-Synced k m n
                      (fail_front-Loses d work k i m n (rw (first, metadata_key.eq-refl k)) h) s))
                  (λ o g. refl)))
    ]
  ]

  cancel_found-returns :
      (work : Effect Agent Env) (k : DownloadableMetadata) (i : ℕ) (m : Manager Agent Env)
      → is_some (cancel_found d work k i m) ≡ true
  unfolding cancel_found cancel_front
  cancel_found-returns work k i m = elim (Bool-cases (is_front (front m.entries) k)) [
    | inl first ↦ rw first (
        >>=-is_some (d.on_cancelled (m.agents i) m.env) _
          (hooks.cancelled_returns (m.agents i) m.env) (λ e h. refl))
    | inr later ↦ elim (Option-cases (get_by_meta k m.entries)) [
      | inl missing ↦ rw (later, missing)
      | inr (index, at_index) ↦
          rw (later, at_index)
            (>>=-is_some (d.on_cancelled (m.agents i) m.env) _
              (hooks.cancelled_returns (m.agents i) m.env) (λ e h. refl))
    ]
  ]

  cancel-returns :
      (work : Effect Agent Env) (k : DownloadableMetadata) (m : Manager Agent Env)
      → Synced m
      → is_some (manage_cancel_signal d work k m) ≡ true
  unfolding manage_cancel_signal
  cancel-returns work k m s = elim (Option-cases (get k m.registry)) [
    | inl none_there ↦ rw none_there (push_ui-returns d (send d go m) s)
    | inr (i, at_i) ↦ rw at_i (
        >>=-is_some (cancel_found d work k i m) _ (cancel_found-returns work k i m) (λ n h.
          push_ui-returns d (send d go n)
            (Loses-Synced k m n (cancel_found-Loses d work k i m n (s.0 k ∙ rw at_i) h) s)))
  ]

  -- With queue and registry in step, and agents whose methods return, no signal makes a turn panic,
  -- whatever the thread that it may wait for does.
  pub handle-returns :
      (work : Effect Agent Env) (s : DownloadManagerSignal) (m : Manager Agent Env)
      → Synced m
      → is_some (handle d work s m) ≡ true
  unfolding handle
  handle-returns work go m s =
      >>=-is_some (manage_go_signal d m) _ (go-returns d hooks m s) (λ n h. refl)
  handle-returns work stop m s = refl
  handle-returns work (completed k) m s =
      >>=-is_some (manage_completed_signal d work k m) _ (completed-returns work k m s)
        (λ n h. refl)
  handle-returns work (queue i) m s =
      >>=-is_some (manage_queue_signal d i m) _ (queue-returns d hooks i m) (λ n h. refl)
  handle-returns work (error x) m s =
      >>=-is_some (manage_error_signal d work m) _ (error-returns work m s) (λ n h. refl)
  handle-returns work update_ui_queue m s =
      >>=-is_some (push_ui_queue_update d m) _ (push_ui-returns d m s) (λ n h. refl)
  handle-returns work (update_ui_stats kbs time) m s = refl
  handle-returns work finish m s = refl
  handle-returns work (cancel k) m s =
      >>=-is_some (manage_cancel_signal d work k m) _ (cancel-returns work k m s) (λ n h. refl)
