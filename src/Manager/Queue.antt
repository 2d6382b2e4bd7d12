-- ===== src/Manager/Queue.antt =====
-- src-tauri/download_manager/src/util/queue.rs: the queue of downloads, front first, and the accesses
-- that its users make through the lock.
use drop_app.Prelude.{
  ℕ, zero, suc, ◌≡◌, refl, Bool, Option, none, some, List, [], ◌∷◌, ◌++◌, Key, same, contains,
  erase, arith, if◌then◌else◌, is_some,
}

module _ {ℓ} {K : Type ℓ} where
  abbrev pub front : List K → Option K
  front [] = none
  front (k ∷ ks) = some k

  -- `pop_front`, its result not used
  unfoldable pub pop_front : List K → List K
  pop_front [] = []
  pop_front (k ∷ ks) = ks

  unfoldable pub append : K → List K → List K
  append k ks = ks ++ k ∷ []

  -- `VecDeque::remove`: nothing is removed out of range.
  unfoldable pub remove_at : ℕ → List K → List K
  remove_at i [] = []
  remove_at zero (k ∷ ks) = ks
  remove_at (suc i) (k ∷ ks) = k ∷ remove_at i ks

abbrev pub next_position : Option ℕ → Option ℕ
next_position none = none
next_position (some i) = some (suc i)

module _ {ℓ} {K : Type ℓ} ⦃key : Key K⦄ where
  abbrev pub exists : K → List K → Bool
  exists k ks = contains ks k

  unfoldable pub get_by_meta : K → List K → Option ℕ
  get_by_meta k [] = none
  get_by_meta k (j ∷ js) = if same j k then some 0 else next_position (get_by_meta k js)

  -- The position is found exactly for what is in the queue, and what stands there is the entry: taking
  -- it out leaves the queue without its first entry of that key.
  pub remove_at-get_by_meta :
      (k : K) (ks : List K) (i : ℕ) → get_by_meta k ks ≡ some i → remove_at i ks ≡ erase k ks
  unfolding get_by_meta remove_at erase
  remove_at-get_by_meta k [] i h = cc
  remove_at-get_by_meta k (j ∷ js) zero h = ground arith
  remove_at-get_by_meta k (j ∷ js) (suc i) h = ground (arith, remove_at-get_by_meta k js i)

  pub is_some-get_by_meta : (k : K) (ks : List K) → is_some (get_by_meta k ks) ≡ exists k ks
  unfolding get_by_meta contains
  is_some-get_by_meta k [] = refl
  is_some-get_by_meta k (j ∷ js) = ground (arith, is_some-get_by_meta k js)
