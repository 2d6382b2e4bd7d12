-- ===== src/Manager/Builder/Parts.antt =====
-- What the parts of the manager's handlers do to the queue and to the registry.
use drop_app.Prelude.{
  ℕ, ◌≡◌, refl, ◌∙◌, true, Option, none, some, List, [], ◌∷◌, Map, get, remove, erase, arith,
  Bool-cases, inl, inr,
}
use drop_app.Prelude.Panics.{>>=-eq-some}
use drop_app.Database.Metadata.{DownloadableMetadata, metadata_key}
use drop_app.Manager.Flag.{DownloadThreadControlFlag, stop}
use drop_app.Manager.Signals.{paused}
use drop_app.Manager.Queue.{front, pop_front}
use drop_app.Manager.Downloadable.{Downloadable}
use drop_app.Manager.Builder.{requeue_at, requeue_others, must_requeue}
use drop_app.Manager.State.{
  Manager, Effect, set_flag_at, join_thread, cleanup_current_download,
  stop_and_wait_current_download, remove_and_cleanup_front_download, queue_items,
  push_ui_queue_update, is_front, set_status,
}

module _ {Agent Env : Type 0} where
  -- Neither the queue nor the registry changes.
  abbrev pub Keeps : Manager Agent Env → Manager Agent Env → Type 0
  Keeps m m' = (m'.entries ≡ m.entries) × (m'.registry ≡ m.registry)

  -- One key leaves both, and the others stay in their order.
  abbrev pub Loses : DownloadableMetadata → Manager Agent Env → Manager Agent Env → Type 0
  Loses k m m' = (m'.entries ≡ erase k m.entries) × (m'.registry ≡ remove k m.registry)

  pub Keeps-trans : (m n o : Manager Agent Env) → Keeps m n → Keeps n o → Keeps m o
  Keeps-trans m n o h k = (k.0 ∙ h.0, k.1 ∙ h.1)

pub pop_front-erase :
    (k : DownloadableMetadata) (ks : List DownloadableMetadata)
    → is_front (front ks) k ≡ true
    → pop_front ks ≡ erase k ks
unfolding pop_front erase
pop_front-erase k [] h = refl
pop_front-erase k (j ∷ js) h = ground arith

module _ {Agent Env : Type 0} (d : Downloadable Agent Env) where
  pub set_flag_at-Keeps :
      (i : Option ℕ) (f : DownloadThreadControlFlag) (m : Manager Agent Env)
      → Keeps m (set_flag_at d i f m)
  set_flag_at-Keeps none f m = (refl, refl)
  set_flag_at-Keeps (some i) f m = (refl, refl)

  pub join_thread-Keeps :
      (i : Option ℕ) (work : Effect Agent Env) (m : Manager Agent Env)
      → Keeps m (join_thread d i work m)
  join_thread-Keeps none work m = (refl, refl)
  join_thread-Keeps (some i) work m = (refl, refl)

  pub cleanup-Keeps :
      (work : Effect Agent Env) (m : Manager Agent Env)
      → Keeps m (cleanup_current_download d work m)
  unfolding cleanup_current_download
  cleanup-Keeps work m = join_thread-Keeps m.thread work _

  pub stop_and_wait-Keeps :
      (work : Effect Agent Env) (m : Manager Agent Env)
      → Keeps m (stop_and_wait_current_download d work m)
  unfolding stop_and_wait_current_download
  stop_and_wait-Keeps work m =
      let n = set_flag_at d m.active_control_flag stop (set_status d paused m) in
      Keeps-trans m n (join_thread d m.thread work n)
        (set_flag_at-Keeps m.active_control_flag stop (set_status d paused m))
        (join_thread-Keeps m.thread work n)

  pub remove_front-Loses :
      (work : Effect Agent Env) (k : DownloadableMetadata) (m m' : Manager Agent Env)
      → is_front (front m.entries) k ≡ true
      → remove_and_cleanup_front_download d work k m ≡ some m'
      → Loses k m m'
  unfolding remove_and_cleanup_front_download
  remove_front-Loses work k m m' h e =
      let (i, found, done) = >>=-eq-some (get k m.registry) _ e in
      let kept =
        cleanup-Keeps work
          (record m { entries = pop_front m.entries; registry = remove k m.registry }) in
      ground (arith, pop_front-erase k m.entries h, kept.0, kept.1)

  pub push_ui-Keeps : (m m' : Manager Agent Env) → push_ui_queue_update d m ≡ some m' → Keeps m m'
  unfolding push_ui_queue_update
  push_ui-Keeps m m' e =
      let (items, found, done) = >>=-eq-some (queue_items d m m.entries) _ e in ground arith

  pub requeue_at-Keeps :
      (k : DownloadableMetadata) (i : ℕ) (m m' : Manager Agent Env)
      → requeue_at d k i m ≡ some m'
      → Keeps m m'
  unfolding requeue_at
  requeue_at-Keeps k i m m' e = elim (Bool-cases (must_requeue d k (m.agents i))) [
    | inl again ↦
        let (p, found, done) = >>=-eq-some (d.on_queued (m.agents i) m.env) _ (rw again at e) in
        ground arith
    | inr quiet ↦ ground arith
  ]

  pub requeue_others-Keeps :
      (k : DownloadableMetadata) (r : Map DownloadableMetadata ℕ) (m m' : Manager Agent Env)
      → requeue_others d k r m ≡ some m'
      → Keeps m m'
  unfolding requeue_others
  requeue_others-Keeps k [] m m' e = ground arith
  requeue_others-Keeps k ((j, i) ∷ r) m m' e =
      let (n, first, rest) = >>=-eq-some (requeue_at d k i m) _ e in
      Keeps-trans m n m' (requeue_at-Keeps k i m n first) (requeue_others-Keeps k r n m' rest)
