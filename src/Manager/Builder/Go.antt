-- ===== src/Manager/Builder/Go.antt =====
-- src-tauri/download_manager/src/download_manager_builder.rs, `manage_go_signal` and
-- `manage_stop_signal`: how the download at the front is started and stopped.
use drop_app.Prelude.{
  ℕ, ◌≡◌, refl, ◌∙◌, sym, true, some, [], ◌∷◌, Map, get, arith, Bool-cases, inl, inr, ◌==◌, ==_iff,
  ==-refl, ap, some-injective, subst, ◌⊎◌, same, false,
}
use drop_app.Prelude.Panics.{>>=-eq-some}
use drop_app.Database.Metadata.{DownloadableMetadata, metadata_key}
use drop_app.Manager.Flag.{DownloadThreadControlFlag, go, stop}
use drop_app.Manager.Signals.{DownloadStatus, downloading, paused, queued}
use drop_app.Manager.Queue.{front}
use drop_app.Manager.Downloadable.{Downloadable}
use drop_app.Manager.Builder.{
  manage_go_signal, manage_stop_signal, go_front, requeue_at, requeue_others, start_download,
  must_requeue,
}
use drop_app.Manager.State.{Manager, is_queued, update, set_flag_at, set_status}

module _ {Agent Env : Type 0} (d : Downloadable Agent Env) where
  -- Every download of a registry is that of a key, or waits.
  abbrev pub OthersWait : DownloadableMetadata → (ℕ → Agent) → Map DownloadableMetadata ℕ → Type 0
  OthersWait k agents [] = Unit
  OthersWait k agents ((j, i) ∷ r) =
      ((same (d.metadata (agents i)) k ≡ true) ⊎ (d.status (agents i) ≡ queued))
      × OthersWait k agents r

  -- The same as the manager's test says it.
  abbrev Requeued : DownloadableMetadata → (ℕ → Agent) → Map DownloadableMetadata ℕ → Type 0
  Requeued k agents [] = Unit
  Requeued k agents ((j, i) ∷ r) = (must_requeue d k (agents i) ≡ false) × Requeued k agents r

  is_queued→eq : (s : DownloadStatus) → is_queued s ≡ true → s ≡ queued
  is_queued→eq s h = ground arith

  must_requeue-cases :
      (k : DownloadableMetadata) (a : Agent)
      → must_requeue d k a ≡ false
      → (same (d.metadata a) k ≡ true) ⊎ (d.status a ≡ queued)
  must_requeue-cases k a h = elim (Bool-cases (same (d.metadata a) k)) [
    | inl own ↦ inl own
    | inr other ↦ inr (is_queued→eq (d.status a) (ground (arith, h, other)))
  ]

  Requeued-OthersWait :
      (k : DownloadableMetadata) (agents : ℕ → Agent) (r : Map DownloadableMetadata ℕ)
      → Requeued k agents r
      → OthersWait k agents r
  Requeued-OthersWait k agents [] w = tt
  Requeued-OthersWait k agents ((j, i) ∷ r) (w, rest) =
      (must_requeue-cases k (agents i) w, Requeued-OthersWait k agents r rest)

  abbrev pub Calms : DownloadableMetadata → (ℕ → Agent) → (ℕ → Agent) → Type 0
  Calms k f g = (j : ℕ) → must_requeue d k (f j) ≡ false → must_requeue d k (g j) ≡ false

  waiting-quiet :
      (k : DownloadableMetadata) (a : Agent) → d.status a ≡ queued → must_requeue d k a ≡ false
  waiting-quiet k a h = ground arith

  update-Calms :
      (k : DownloadableMetadata) (f : ℕ → Agent) (i : ℕ) (a : Agent)
      → must_requeue d k a ≡ false
      → Calms k f (update f i a)
  update-Calms k f i a h j g = elim (Bool-cases (i == j)) [
    | inl here ↦ rw (here, h)
    | inr there ↦ rw (there, g)
  ]

  requeue_at-Calms :
      (k : DownloadableMetadata) (i : ℕ) (m m' : Manager Agent Env)
      → requeue_at d k i m ≡ some m'
      → (must_requeue d k (m'.agents i) ≡ false) × Calms k m.agents m'.agents
  unfolding requeue_at
  requeue_at-Calms k i m m' e = elim (Bool-cases (must_requeue d k (m.agents i))) [
    | inl again ↦
        let (p, called, done) = >>=-eq-some (d.on_queued (m.agents i) m.env) _ (rw again at e) in
        let waits = d.status-on_queued (m.agents i) m.env p.0 p.1 called in
        let quiet = waiting-quiet k p.0 waits in
        let after = some-injective done in
        (
          subst (λ n. must_requeue d k (n.agents i) ≡ false) after (rw (==-refl i, quiet)),
          subst (λ n. Calms k m.agents n.agents) after (update-Calms k m.agents i p.0 quiet),
        )
    | inr quiet ↦
        let same_state = some-injective (rw quiet at e) in
        (
          subst (λ n. must_requeue d k (n.agents i) ≡ false) same_state quiet,
          subst (λ n. Calms k m.agents n.agents) same_state (λ j g. g),
        )
  ]

  Requeued-Calms :
      (k : DownloadableMetadata) (f g : ℕ → Agent) (r : Map DownloadableMetadata ℕ)
      → Calms k f g
      → Requeued k f r
      → Requeued k g r
  Requeued-Calms k f g [] c w = tt
  Requeued-Calms k f g ((j, i) ∷ r) c w = (c i w.0, Requeued-Calms k f g r c w.1)

  requeue_others-wait :
      (k : DownloadableMetadata) (r : Map DownloadableMetadata ℕ) (m m' : Manager Agent Env)
      → requeue_others d k r m ≡ some m'
      → Requeued k m'.agents r × Calms k m.agents m'.agents
  unfolding requeue_others
  requeue_others-wait k [] m m' e =
      (tt, subst (λ n. Calms k m.agents n.agents) (some-injective e) (λ j g. g))
  requeue_others-wait k ((j, i) ∷ r) m m' e =
      let (n, first, rest) = >>=-eq-some (requeue_at d k i m) _ e in
      let one = requeue_at-Calms k i m n first in
      let others = requeue_others-wait k r n m' rest in
      ((others.1 i one.0, others.0), λ a g. others.1 a (one.1 a g))

  set_flag_at-Calms :
      (k : DownloadableMetadata) (i : ℕ) (f : DownloadThreadControlFlag) (m : Manager Agent Env)
      → Calms k m.agents (set_flag_at d (some i) f m).agents
  set_flag_at-Calms k i f m j g = elim (Bool-cases (i == j)) [
    | inl here ↦ rw (
      here,
      d.metadata-set_control_flag f (m.agents i),
      d.status-set_control_flag f (m.agents i),
      (==_iff i j).0 here,
      g,
    )
    | inr there ↦ rw (there, g)
  ]

  go_of_front :
      (k : DownloadableMetadata) (i : ℕ) (m : Manager Agent Env)
      → front m.entries ≡ some k
      → get k m.registry ≡ some i
      → manage_go_signal d m ≡ go_front d k m
  unfolding manage_go_signal get
  go_of_front k i m h at_i = ground arith

  go_front-busy :
      (k : DownloadableMetadata) (i : ℕ) (m : Manager Agent Env)
      → get k m.registry ≡ some i
      → is_queued (d.status (m.agents i)) ≡ false
      → go_front d k m ≡ some m
  unfolding go_front
  go_front-busy k i m at_i busy = rw (at_i, busy)

  stop_of_active :
      (i : ℕ) (m : Manager Agent Env)
      → m.active_control_flag ≡ some i
      → manage_stop_signal d m ≡ set_flag_at d (some i) stop (set_status d paused m)
  unfolding manage_stop_signal
  stop_of_active i m active = rw active

  flag_at :
      (i : ℕ) (f : DownloadThreadControlFlag) (m : Manager Agent Env)
      → d.control_flag ((set_flag_at d (some i) f m).agents i) ≡ f
  flag_at i f m = rw (==-refl i, d.get_control_flag f (m.agents i))

  requeue_at-keeps :
      (k : DownloadableMetadata) (i j : ℕ) (m m' : Manager Agent Env)
      → d.status (m.agents j) ≡ queued
      → requeue_at d k i m ≡ some m'
      → (m'.agents j ≡ m.agents j) × (m'.entries ≡ m.entries) × (m'.registry ≡ m.registry)
  unfolding requeue_at
  requeue_at-keeps k i j m m' waits e = elim (Bool-cases (must_requeue d k (m.agents i))) [
    | inl again ↦
        let (p, called, done) = >>=-eq-some (d.on_queued (m.agents i) m.env) _ (rw again at e) in
        let after = some-injective done in
        let apart : (i == j) ≡ false = elim (Bool-cases (i == j)) [
          | inr there ↦ there
          | inl here ↦
              let same_agent = ap (λ x. must_requeue d k (m.agents x)) ((==_iff i j).0 here) in
              let quiet = waiting-quiet k (m.agents j) waits in cc
        ] in
        subst (λ n. (n.agents j ≡ m.agents j) × (n.entries ≡ m.entries) × (n.registry ≡ m.registry))
          after (rw apart refl, refl, refl)
    | inr quiet ↦
        let same_state = some-injective (rw quiet at e) in
        subst (λ n. (n.agents j ≡ m.agents j) × (n.entries ≡ m.entries) × (n.registry ≡ m.registry))
          same_state (refl, refl, refl)
  ]

  requeue_others-keep :
      (k : DownloadableMetadata) (r : Map DownloadableMetadata ℕ) (j : ℕ) (m m' : Manager Agent Env)
      → d.status (m.agents j) ≡ queued
      → requeue_others d k r m ≡ some m'
      → (m'.agents j ≡ m.agents j) × (m'.entries ≡ m.entries) × (m'.registry ≡ m.registry)
  unfolding requeue_others
  requeue_others-keep k [] j m m' waits e =
      subst (λ n. (n.agents j ≡ m.agents j) × (n.entries ≡ m.entries) × (n.registry ≡ m.registry))
        (some-injective e) (refl, refl, refl)
  requeue_others-keep k ((l, i) ∷ r) j m m' waits e =
      let (n, first, rest) = >>=-eq-some (requeue_at d k i m) _ e in
      let (here, entries, registry) = requeue_at-keeps k i j m n waits first in
      let (there, entries', registry') =
        requeue_others-keep k r j n m' (ap d.status here ∙ waits) rest in
      (there ∙ here, entries' ∙ entries, registry' ∙ registry)

  started_agent :
      (i j : ℕ) (m : Manager Agent Env)
      → (i == j) ≡ false
      → (start_download d i m).agents j ≡ m.agents j
  started_agent i j m apart = rw apart refl

  -- A `Go` that finds the front's download waiting starts it and only it. The thread and the active
  -- flag are the front's, and the flag says `Go`; each registered download is that of the front's key
  -- or waits; a download that waited already, other than the front's, is left as it was; queue and
  -- registry stay.
  pub manage_go_signal-starts :
      (k : DownloadableMetadata) (i j : ℕ) (m m' : Manager Agent Env)
      → front m.entries ≡ some k
      → get k m.registry ≡ some i
      → d.status (m.agents i) ≡ queued
      → d.status (m.agents j) ≡ queued
      → (i == j) ≡ false
      → manage_go_signal d m ≡ some m'
      → (m'.thread ≡ some i)
        × (m'.active_control_flag ≡ some i)
        × (d.control_flag (m'.agents i) ≡ go)
        × (m'.status ≡ downloading)
        × OthersWait k m'.agents m.registry
        × (m'.agents j ≡ m.agents j)
        × (m'.entries ≡ m.entries)
        × (m'.registry ≡ m.registry)
  unfolding go_front
  manage_go_signal-starts k i j m m' h at_i waiting waits apart e =
      let is_waiting : is_queued (d.status (m.agents i)) ≡ true = ap is_queued waiting in
      let started = sym (go_of_front k i m h at_i) ∙ e in
      let (n, requeued, done) =
        >>=-eq-some (requeue_others d k m.registry m) _ (rw (at_i, is_waiting) at started) in
      let same_state = some-injective done in
      let quiet = (requeue_others-wait k m.registry m n requeued).0 in
      let (kept, entries, registry) = requeue_others-keep k m.registry j m n waits requeued in
      let flagged = record n {
        active_control_flag = some i;
        thread = some i;
        status = downloading;
      } in
      (
        ap (λ o. o.thread) (sym same_state),
        ap (λ o. o.active_control_flag) (sym same_state),
        ap (λ o. d.control_flag (o.agents i)) (sym same_state) ∙ flag_at i go flagged,
        ap (λ o. o.status) (sym same_state),
        subst (λ o. OthersWait k o.agents m.registry) same_state
            (Requeued-OthersWait k (start_download d i n).agents m.registry (
              Requeued-Calms k n.agents (start_download d i n).agents m.registry
                (set_flag_at-Calms k i go flagged) quiet)),
        subst (λ o. o.agents j ≡ m.agents j) same_state (started_agent i j n apart ∙ kept),
        subst (λ o. o.entries ≡ m.entries) same_state entries,
        subst (λ o. o.registry ≡ m.registry) same_state registry,
      )

  -- A `Go` that finds the front's download anything but waiting does nothing at all. After a `Stop`
  -- of a download that runs, which leaves its status, the `Go` of the interface therefore resumes
  -- nothing: the flag stays at `Stop`.
  pub stop_then_go :
      (k : DownloadableMetadata) (i : ℕ) (m : Manager Agent Env)
      → front m.entries ≡ some k
      → get k m.registry ≡ some i
      → m.active_control_flag ≡ some i
      → is_queued (d.status (m.agents i)) ≡ false
      → let m' = manage_stop_signal d m in
        (manage_go_signal d m' ≡ some m')
        × (d.control_flag (m'.agents i) ≡ stop)
        × (m'.status ≡ paused)
  stop_then_go k i m h at_i active busy =
      let n = set_flag_at d (some i) stop (set_status d paused m) in
      let still : is_queued (d.status (n.agents i)) ≡ false =
        (rw (==-refl i, d.status-set_control_flag stop (m.agents i), busy)) in
      subst
        (λ m'.
          (manage_go_signal d m' ≡ some m')
          × (d.control_flag (m'.agents i) ≡ stop)
          × (m'.status ≡ paused))
        (sym (stop_of_active i m active))
        (
          go_of_front k i n h at_i ∙ go_front-busy k i n at_i still,
          flag_at i stop (set_status d paused m),
          refl,
        )
