-- ===== src/Manager/Progress/Accounting.antt =====
-- What the counters add up to, and what counts for the speed.
use drop_app.Prelude.{
  ℕ, zero, suc, ◌+◌, ◌/◌, ◌≤◌, ◌<◌, ◌≡◌, refl, Bool, true, false, some, List, [], ◌∷◌, set, length,
  max, arith, sum_by, ap, ◌∙◌, if◌then◌else◌,
}
use drop_app.Prelude.Usize.{add_usize, usize_mod, add_usize_exact, saturating_sub}
use drop_app.Manager.Signals.{DownloadManagerSignal, update_ui_queue, update_ui_stats}
use drop_app.Manager.Rolling
use drop_app.Manager.Rolling.{IsWithin, update-IsWithin, get_average-update}
use drop_app.Manager.Progress.{
  ProgressObject, total, sum, counter, fetch_add, skip, add, calculate_update, push_update,
  bytes_since_last_update,
}

-- The sum before it wraps.
abbrev pub exact : List ℕ → ℕ
exact = sum_by (λ n. n)

total-exact : (xs : List ℕ) → exact xs < usize_mod → total xs ≡ exact xs
unfolding total
total-exact [] h = refl
total-exact (x ∷ xs) h = omega (
  arith,
  total-exact xs (omega arith),
  add_usize_exact x (exact xs),
  ap (add_usize x) (total-exact xs (omega arith)),
)

exact-set :
    (xs : List ℕ) (i v : ℕ) → i < length xs → exact (set xs i v) + counter xs i ≡ exact xs + v
exact-set [] i v h = absurd (omega arith)
exact-set (x ∷ xs) zero v h = omega arith
exact-set (x ∷ xs) (suc i) v h = omega (arith, exact-set xs i v (omega arith))

fetch_add-exact :
    (i amount : ℕ) (p : ProgressObject)
    → i < length p.progress_instances
    → exact p.progress_instances + amount < usize_mod
    → exact (fetch_add i amount p).progress_instances ≡ exact p.progress_instances + amount
unfolding fetch_add
fetch_add-exact i amount p h b = omega (
  arith,
  exact-set p.progress_instances i (add_usize (counter p.progress_instances i) amount) h,
  add_usize_exact (counter p.progress_instances i) amount,
  counter-le p.progress_instances i,
)
  where
    counter-le : (xs : List ℕ) (i : ℕ) → counter xs i ≤ exact xs
    counter-le [] i = omega arith
    counter-le (x ∷ xs) zero = omega arith
    counter-le (x ∷ xs) (suc i) = omega (arith, counter-le xs i)

fetch_add-bytes :
    (i amount : ℕ) (p : ProgressObject)
    → (fetch_add i amount p).bytes_last_update ≡ p.bytes_last_update
unfolding fetch_add
fetch_add-bytes i amount p = refl

fetch_add-rolling : (i amount : ℕ) (p : ProgressObject) → (fetch_add i amount p).rolling ≡ p.rolling
unfolding fetch_add
fetch_add-rolling i amount p = refl

-- Bytes that a handle skips count as progress and not as speed; bytes that it adds count as both.
-- (No sum wraps, and the last update saw no more bytes than there are.)
pub skip_lem :
    (i amount : ℕ) (p : ProgressObject)
    → i < length p.progress_instances
    → exact p.progress_instances + amount < usize_mod
    → p.bytes_last_update ≤ exact p.progress_instances
    → (sum (skip i amount p) ≡ sum p + amount)
      × (bytes_since_last_update (skip i amount p) ≡ bytes_since_last_update p)
      × (sum (fetch_add i amount p) ≡ sum p + amount)
      × (bytes_since_last_update (fetch_add i amount p) ≡ bytes_since_last_update p + amount)
unfolding skip sum bytes_since_last_update
skip_lem i amount p h b l =
    let added = fetch_add-exact i amount p h b in
    let before = total-exact p.progress_instances (omega arith) in
    let after = total-exact (fetch_add i amount p).progress_instances (omega arith) in
    let seen = add_usize_exact p.bytes_last_update amount in
    let kept = fetch_add-bytes i amount p in (omega arith, ground arith, omega arith, ground arith)

calculate_update_lem :
    (hi time : ℕ) (fires pushes : Bool) (speed : ℕ → ℕ → ℕ) (p : ProgressObject)
    → p.rolling.current + 1 < usize_mod
    → ((bytes : ℕ) → speed bytes time ≤ hi)
    → IsWithin 0 hi p.rolling
    → (p' : ProgressObject) × (signals : List DownloadManagerSignal) × (calculate_update fires
          pushes speed time p
        ≡ some (p', signals))
      × IsWithin 0 hi p'.rolling
      × (sum p' ≡ sum p)
      × (bytes_since_last_update p' ≡ (if fires then 0 else bytes_since_last_update p))
unfolding calculate_update push_update sum bytes_since_last_update
calculate_update_lem hi time false pushes speed p room bound h = (p, [], refl, h, refl, refl)
calculate_update_lem hi time true false speed p room bound h =
    let v = speed (bytes_since_last_update p) time in
    (
      record p { bytes_last_update = sum p; rolling = Rolling.update v p.rolling },
      [],
      refl,
      update-IsWithin 0 hi v p.rolling room h (omega arith) (bound (bytes_since_last_update p)),
      refl,
      omega arith,
    )
calculate_update_lem hi time true true speed p room bound h =
    let v = speed (bytes_since_last_update p) time in
    let below = bound (bytes_since_last_update p) in
    let (average, found) = get_average-update 0 hi v p.rolling room h (omega arith) below in
    (
      record p { bytes_last_update = sum p; rolling = Rolling.update v p.rolling },
      update_ui_stats average (saturating_sub p.max_bytes (sum p) / 1000 / max average 1)
          ∷ update_ui_queue
          ∷ [],
      rw found refl,
      update-IsWithin 0 hi v p.rolling room h (omega arith) below,
      refl,
      omega arith,
    )

-- While the window keeps to its bounds and nothing wraps, adding bytes to a counter does not panic,
-- whichever of the two throttles let it through: the average is only asked for after a speed was
-- stored. If the first throttle fires, the bytes since the last update start again from nothing; the
-- sum grows by the bytes, and the window keeps to its bounds.
pub add_lem :
    (hi time i amount : ℕ) (fires pushes : Bool) (speed : ℕ → ℕ → ℕ) (p : ProgressObject)
    → p.rolling.current + 1 < usize_mod
    → ((bytes : ℕ) → speed bytes time ≤ hi)
    → IsWithin 0 hi p.rolling
    → i < length p.progress_instances
    → exact p.progress_instances + amount < usize_mod
    → p.bytes_last_update ≤ exact p.progress_instances
    → (p' : ProgressObject) × (signals : List DownloadManagerSignal) × (add fires pushes speed time
          i amount p
        ≡ some (p', signals))
      × IsWithin 0 hi p'.rolling
      × (sum p' ≡ sum p + amount)
      × (bytes_since_last_update p' ≡ (if fires then 0 else bytes_since_last_update p + amount))
unfolding add
add_lem hi time i amount fires pushes speed p room bound h inside b l =
    let (_, _, summed, since) = skip_lem i amount p inside b l in
    let same_window = fetch_add-rolling i amount p in
    let (p', signals, e, within, kept, left) =
      calculate_update_lem hi time fires pushes speed (fetch_add i amount p) (rw same_window room)
        bound (rw same_window h) in
    (p', signals, e, within, kept ∙ summed, left ∙ ap (λ n. if fires then 0 else n) since)
