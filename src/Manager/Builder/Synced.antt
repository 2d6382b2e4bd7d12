-- ===== src/Manager/Builder/Synced.antt =====
-- src-tauri/download_manager/src/download_manager_builder.rs: the queue and the registry of agents hold
-- the same keys, as the comment at the top of that file asks, and the queue changes as an abstract
-- queue of keys does.
use drop_app.Prelude.{
  ℕ, ◌≡◌, sym, subst, false, [], ◌∷◌, insert, contains, arith, contains_key, Distinct, get-insert,
  get-remove, contains-append, contains-erase, erase-Distinct, append-Distinct,
}
use drop_app.Database.Metadata.{DownloadableMetadata, metadata_key}
use drop_app.Manager.Queue.{append, exists}
use drop_app.Manager.State.{Manager}
use drop_app.Manager.Builder.Parts.{Keeps, Loses}

module _ {Agent Env : Type 0} where
  -- What is in the queue has an agent and the other way round, and nothing is in the queue twice.
  abbrev pub Synced : Manager Agent Env → Type 0
  Synced m =
      ((k : DownloadableMetadata) → exists k m.entries ≡ contains_key k m.registry)
      × Distinct m.entries

  pub Keeps-Synced : (m m' : Manager Agent Env) → Keeps m m' → Synced m → Synced m'
  Keeps-Synced m m' h s = (λ k. rw (h.0, h.1, s.0 k), subst (λ ks. Distinct ks) (sym h.0) s.1)

  pub Loses-Synced :
      (k : DownloadableMetadata) (m m' : Manager Agent Env) → Loses k m m' → Synced m → Synced m'
  Loses-Synced k m m' h s = (
    λ j.
        ground
          (arith, h.0, h.1, contains-erase k j m.entries s.1, get-remove k j m.registry, s.0 j),
    subst (λ ks. Distinct ks) (sym h.0) (erase-Distinct k m.entries s.1),
  )

  abbrev pub Gains : DownloadableMetadata → ℕ → Manager Agent Env → Manager Agent Env → Type 0
  Gains k i m m' = (m'.entries ≡ append k m.entries) × (m'.registry ≡ insert k i m.registry)

  pub Gains-Synced :
      (k : DownloadableMetadata) (i : ℕ) (m m' : Manager Agent Env)
      → exists k m.entries ≡ false
      → Gains k i m m'
      → Synced m
      → Synced m'
  unfolding append contains
  Gains-Synced k i m m' new h s = (
    λ j.
        ground (
          arith,
          h.0,
          h.1,
          contains-append m.entries (k ∷ []) j,
          get-insert k j i m.registry,
          s.0 j,
        ),
    subst (λ ks. Distinct ks) (sym h.0) (append-Distinct m.entries k s.1 new),
  )
