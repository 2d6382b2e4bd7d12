-- ===== src/Manager/Frontend/Rearrange.antt =====
-- src-tauri/download_manager/src/download_manager_frontend.rs: moving a download changes only the order
-- of the queue, so that it stays in step with the manager's registry.
use drop_app.Prelude.{
  ℕ, zero, suc, ◌≡◌, refl, ◌∙◌, sym, Bool, true, false, ◌||◌, ◌<◌, some, List, [], ◌∷◌, Key, same,
  contains, Distinct, arith, Option-cases, inl, inr, some-injective, length, get_elem?, is_some,
  ◌==◌, subst, ap, contains-congr,
}
use drop_app.Prelude.Panics.{>>=-eq-some}
use drop_app.Database.Metadata.{DownloadableMetadata, metadata_key}
use drop_app.Manager.Queue.{remove_at}
use drop_app.Manager.Frontend.{DownloadManager, insert_at, move_to, rearrange, send, send_if}
use drop_app.Manager.Signals.{DownloadManagerSignal, go, stop, update_ui_queue}

module _ {ℓ} {K : Type ℓ} ⦃key : Key K⦄ where
  insert_at-keys :
      (i : ℕ) (k : K) (ks ls : List K)
      → insert_at i k ks ≡ some ls
      → (j : K) → contains ls j ≡ (same k j || contains ks j)
  unfolding insert_at contains
  insert_at-keys zero k ks ls e j =
      subst (λ r. contains r j ≡ (same k j || contains ks j)) (some-injective e) refl
  insert_at-keys (suc i) k [] ls e j = cc
  insert_at-keys (suc i) k (l ∷ r) ls e j =
      let (r', inserted, done) = >>=-eq-some (insert_at i k r) _ e in
      subst (λ x. contains x j ≡ (same k j || contains (l ∷ r) j)) (some-injective done)
        (ground (arith, insert_at-keys i k r r' inserted j))

  insert_at-Distinct :
      (i : ℕ) (k : K) (ks ls : List K)
      → insert_at i k ks ≡ some ls
      → contains ks k ≡ false
      → Distinct ks
      → Distinct ls
  unfolding insert_at contains
  insert_at-Distinct zero k ks ls e h d = subst (λ r. Distinct r) (some-injective e) (h, d)
  insert_at-Distinct (suc i) k [] ls e h d = cc
  insert_at-Distinct (suc i) k (l ∷ r) ls e h d =
      let (r', inserted, done) = >>=-eq-some (insert_at i k r) _ e in
      subst (λ r. Distinct r) (some-injective done)
        (
          ground (arith, insert_at-keys i k r r' inserted l, key.eq-comm l k),
          insert_at-Distinct i k r r' inserted (ground arith) d.1,
        )

  remove_at-keys :
      (i : ℕ) (k : K) (ks : List K)
      → get_elem? ks i ≡ some k
      → Distinct ks
      → ((j : K) → contains ks j ≡ (same k j || contains (remove_at i ks) j))
        × (contains (remove_at i ks) k ≡ false)
        × Distinct (remove_at i ks)
  unfolding remove_at contains
  remove_at-keys i k [] e d = cc
  remove_at-keys zero k (l ∷ r) e d =
      subst
        (λ x.
          ((j : K) → (same l j || contains r j) ≡ (same x j || contains r j))
          × (contains r x ≡ false)
          × Distinct r)
        (some-injective e) (λ j. refl, d.0, d.1)
  remove_at-keys (suc i) k (l ∷ r) e d =
      let h = remove_at-keys i k r e d.1 in
      (
        λ j. ground (arith, h.0 j),
        ground (arith, h.0 k, h.1, key.eq-refl k, contains-congr r l k),
        (ground (arith, h.0 l), h.2),
      )

  insert_at-here :
      (i : ℕ) (k : K) (ks ls : List K) → insert_at i k ks ≡ some ls → get_elem? ls i ≡ some k
  unfolding insert_at
  insert_at-here zero k ks ls e = subst (λ x. get_elem? x zero ≡ some k) (some-injective e) refl
  insert_at-here (suc i) k [] ls e = cc
  insert_at-here (suc i) k (l ∷ r) ls e =
      let (r', inserted, done) = >>=-eq-some (insert_at i k r) _ e in
      subst (λ x. get_elem? x (suc i) ≡ some k) (some-injective done)
        (insert_at-here i k r r' inserted)

  insert_at-is_some :
      (i : ℕ) (k : K) (ks : List K) → i < suc (length ks) → is_some (insert_at i k ks) ≡ true
  unfolding insert_at
  insert_at-is_some zero k ks h = refl
  insert_at-is_some (suc i) k [] h = ground arith
  insert_at-is_some (suc i) k (l ∷ r) h = ground (arith, insert_at-is_some i k r (omega arith))

  length-remove_at :
      (i : ℕ) (ks : List K) → i < length ks → suc (length (remove_at i ks)) ≡ length ks
  unfolding remove_at
  length-remove_at i [] h = omega arith
  length-remove_at zero (k ∷ ks) h = refl
  length-remove_at (suc i) (k ∷ ks) h = ground (arith, length-remove_at i ks (omega arith))

  get_elem?-is_some : (i : ℕ) (ks : List K) → i < length ks → is_some (get_elem? ks i) ≡ true
  get_elem?-is_some i [] h = ground arith
  get_elem?-is_some zero (k ∷ ks) h = refl
  get_elem?-is_some (suc i) (k ∷ ks) h = get_elem?-is_some i ks (omega arith)

  -- What was at the old position is at the new one, and the queue holds the same, once each.
  pub move_to-keys :
      (i j : ℕ) (ks ls : List K)
      → move_to i j ks ≡ some ls
      → Distinct ks
      → ((k : K) → contains ls k ≡ contains ks k) × Distinct ls × (get_elem? ls j ≡ get_elem? ks i)
  unfolding move_to
  move_to-keys i j ks ls e d =
      let (k, found, inserted) = >>=-eq-some (get_elem? ks i) _ e in
      let (removed, absent, rest) = remove_at-keys i k ks found d in
      (
        λ l. insert_at-keys j k (remove_at i ks) ls inserted l ∙ sym (removed l),
        insert_at-Distinct j k (remove_at i ks) ls inserted absent rest,
        insert_at-here j k (remove_at i ks) ls inserted ∙ sym found,
      )

  pub move_to-is_some :
      (i j : ℕ) (ks : List K)
      → i < length ks
      → j < length ks
      → (ls : List K) × (move_to i j ks ≡ some ls)
  unfolding move_to
  move_to-is_some i j ks h g = elim (Option-cases (get_elem? ks i)) [
    | inl missing ↦ ground (arith, get_elem?-is_some i ks h)
    | inr (k, found) ↦ elim (Option-cases (insert_at j k (remove_at i ks))) [
      | inl panics ↦
          ground
            (arith, insert_at-is_some j k (remove_at i ks) (omega (arith, length-remove_at i ks h)))
      | inr (ls, inserted) ↦ (ls, rw (found, inserted))
    ]
  ]

send_if-queue :
    (b : Bool) (s : DownloadManagerSignal) (m : DownloadManager)
    → (send_if b s m).download_queue ≡ m.download_queue
send_if-queue true s m = refl
send_if-queue false s m = refl

-- Moving a download to another position of a queue without duplicates succeeds when both positions are
-- in the queue; then the download that stood at the old position stands at the new one, the queue
-- holds the same downloads, and none of them twice.
pub rearrange_lem :
    (i j : ℕ) (m : DownloadManager)
    → i < length m.download_queue
    → j < length m.download_queue
    → Distinct m.download_queue
    → (i == j) ≡ false
    → (m' : DownloadManager) × (rearrange i j m ≡ some m')
      × ((k : DownloadableMetadata) → contains m'.download_queue k ≡ contains m.download_queue k)
      × Distinct m'.download_queue
      × (get_elem? m'.download_queue j ≡ get_elem? m.download_queue i)
unfolding rearrange
rearrange_lem i j m h g d apart =
    let (ls, moved) = move_to-is_some i j m.download_queue h g in
    let needs_pause = (i == 0) || (j == 0) in
    let n = send_if needs_pause go (record (send_if needs_pause stop m) { download_queue = ls }) in
    let m' = send go (send update_ui_queue n) in
    let (keys, once, there) = move_to-keys i j m.download_queue ls moved d in
    let same_queue : n.download_queue ≡ ls =
      send_if-queue needs_pause go (record (send_if needs_pause stop m) { download_queue = ls }) in
    (
      m',
      rw (apart, moved),
      λ k. ap (λ q. contains q k) same_queue ∙ keys k,
      subst (λ q. Distinct q) (sym same_queue) once,
      ap (λ q. get_elem? q j) same_queue ∙ there,
    )
