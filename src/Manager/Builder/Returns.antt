-- ===== src/Manager/Builder/Returns.antt =====
-- src-tauri/download_manager/src/download_manager_builder.rs: the unwraps of the manager's thread. None
-- of them panics while queue and registry are in step and the agents' methods return.
use drop_app.Prelude.{
  ℕ, ◌≡◌, refl, ◌∙◌, sym, true, Option, none, some, List, [], ◌∷◌, Map, get, contains, arith,
  Bool-cases, inl, inr, contains_key, is_some,
}
use drop_app.Prelude.Panics.{>>=-is_some}
use drop_app.Database.Metadata.{DownloadableMetadata, metadata_key}
use drop_app.Manager.Queue.{front, exists}
use drop_app.Manager.Downloadable.{Downloadable, HooksReturn}
use drop_app.Manager.Builder.{
  manage_go_signal, manage_queue_signal, go_front, go_next, requeue_at, requeue_others,
  must_requeue,
}
use drop_app.Manager.State.{
  Manager, Effect, push_ui_queue_update, queue_items, remove_and_cleanup_front_download, is_queued,
}
use drop_app.Manager.Builder.Synced.{Synced}
use drop_app.Manager.Builder.Refinement.{front-exists}

module _ {Agent Env : Type 0} (d : Downloadable Agent Env) where
  queue_items-returns :
      (m : Manager Agent Env) (ks : List DownloadableMetadata)
      → ((k : DownloadableMetadata) → contains ks k ≡ true → contains_key k m.registry ≡ true)
      → is_some (queue_items d m ks) ≡ true
  unfolding queue_items contains
  queue_items-returns m [] h = refl
  queue_items-returns m (k ∷ ks) h =
      let later = queue_items-returns m ks (λ j i. h j (ground (arith, i))) in
      let here = h k (ground (arith, metadata_key.eq-refl k)) in
      >>=-is_some (get k m.registry) _ here
        (λ i at_i. >>=-is_some (queue_items d m ks) _ later (λ items h. refl))

  pub push_ui-returns :
      (m : Manager Agent Env) → Synced m → is_some (push_ui_queue_update d m) ≡ true
  unfolding push_ui_queue_update
  push_ui-returns m s =
      >>=-is_some (queue_items d m m.entries) _
        (queue_items-returns m m.entries (λ k h. sym (s.0 k) ∙ h)) (λ items h. refl)

  pub remove_front-returns :
      (work : Effect Agent Env) (k : DownloadableMetadata) (m : Manager Agent Env)
      → contains_key k m.registry ≡ true
      → is_some (remove_and_cleanup_front_download d work k m) ≡ true
  unfolding remove_and_cleanup_front_download
  remove_front-returns work k m h = >>=-is_some (get k m.registry) _ h (λ i at_i. refl)

  module _ (hooks : HooksReturn d) where
    requeue_at-returns :
        (k : DownloadableMetadata) (i : ℕ) (m : Manager Agent Env)
        → is_some (requeue_at d k i m) ≡ true
    unfolding requeue_at
    requeue_at-returns k i m = elim (Bool-cases (must_requeue d k (m.agents i))) [
      | inl again ↦ rw again (
          >>=-is_some (d.on_queued (m.agents i) m.env) _ (hooks.queued_returns (m.agents i) m.env)
            (λ p h. refl))
      | inr quiet ↦ rw quiet
    ]

    requeue_others-returns :
        (k : DownloadableMetadata) (r : Map DownloadableMetadata ℕ) (m : Manager Agent Env)
        → is_some (requeue_others d k r m) ≡ true
    unfolding requeue_others
    requeue_others-returns k [] m = refl
    requeue_others-returns k ((j, i) ∷ r) m =
        >>=-is_some (requeue_at d k i m) _ (requeue_at-returns k i m)
          (λ n h. requeue_others-returns k r n)

    go_front-returns :
        (k : DownloadableMetadata) (m : Manager Agent Env)
        → contains_key k m.registry ≡ true
        → is_some (go_front d k m) ≡ true
    unfolding go_front
    go_front-returns k m h = >>=-is_some (get k m.registry) _ h (λ i at_i.
        elim (Bool-cases (is_queued (d.status (m.agents i)))) [
          | inl waiting ↦ rw waiting (
              >>=-is_some (requeue_others d k m.registry m) _
                (requeue_others-returns k m.registry m) (λ n h. refl))
          | inr going ↦ rw going
        ])

    go_next-returns :
        (o : Option DownloadableMetadata) (m : Manager Agent Env)
        → ((k : DownloadableMetadata) → o ≡ some k → contains_key k m.registry ≡ true)
        → is_some (go_next d o m) ≡ true
    go_next-returns none m h = refl
    go_next-returns (some k) m h = go_front-returns k m (h k refl)

    pub front-known :
        (m : Manager Agent Env) (k : DownloadableMetadata)
        → Synced m
        → front m.entries ≡ some k
        → contains_key k m.registry ≡ true
    front-known m k s h = sym (s.0 k) ∙ front-exists k m.entries h

    pub go-returns : (m : Manager Agent Env) → Synced m → is_some (manage_go_signal d m) ≡ true
    unfolding manage_go_signal
    go-returns m s =
        ground (arith, go_next-returns (front m.entries) m (λ k h. front-known m k s h))

    pub queue-returns : (i : ℕ) (m : Manager Agent Env) → is_some (manage_queue_signal d i m) ≡ true
    unfolding manage_queue_signal
    queue-returns i m = elim (Bool-cases (exists (d.metadata (m.agents i)) m.entries)) [
      | inl known ↦ rw known
      | inr new ↦ rw new (
          >>=-is_some (d.on_queued (m.agents i) m.env) _ (hooks.queued_returns (m.agents i) m.env)
            (λ p h. refl))
    ]
