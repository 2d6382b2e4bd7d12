-- ===== src/Manager/Progress.antt =====
-- src-tauri/download_manager/src/util/progress_object.rs: the bytes that each thread has fetched, the
-- speed and the time left. Instants enter as the milliseconds between two updates; whether a throttled
-- function runs is an argument, and so is the division of floats that gives the speed.
pub mod Accounting
use drop_app.Prelude.{
  ℕ, zero, suc, ◌+◌, ◌-◌, ◌/◌, Bool, true, false, Option, none, some, List, [], ◌∷◌, ◌++◌,
  get_elem?, set, replicate, length, map, max, if◌then◌else◌,
}
use drop_app.Prelude.Usize.{add_usize, saturating_sub}
use drop_app.Prelude.Panics.{◌>>=◌}
use drop_app.Manager.Signals.{DownloadManagerSignal, update_ui_queue, update_ui_stats}
use drop_app.Manager.Rolling
use drop_app.Manager.Rolling.{RollingProgressWindow}

abbrev pub window_slots : ℕ
window_slots = 1000

pub record ProgressObject : Type 0 where
  pub max_bytes : ℕ
  pub progress_instances : List ℕ
  pub bytes_last_update : ℕ
  pub rolling : RollingProgressWindow

unfoldable pub new : ℕ → ℕ → ProgressObject
new max_bytes slots = record {
  max_bytes = max_bytes;
  progress_instances = replicate slots 0;
  bytes_last_update = 0;
  rolling = Rolling.new window_slots;
}

-- The sum of machine words wraps.
unfoldable pub total : List ℕ → ℕ
total [] = 0
total (x ∷ xs) = add_usize x (total xs)

unfoldable pub sum : ProgressObject → ℕ
sum p = total p.progress_instances

unfoldable pub reset : ProgressObject → ProgressObject
reset p = record p {
  bytes_last_update = 0;
  rolling = Rolling.reset p.rolling;
  progress_instances = map (λ x. 0) p.progress_instances;
}

abbrev pub get_max : ProgressObject → ℕ
get_max p = p.max_bytes

unfoldable pub set_max : ℕ → ProgressObject → ProgressObject
set_max new_max p = record p { max_bytes = new_max }

unfoldable pub set_size : ℕ → ProgressObject → ProgressObject
set_size slots p = record p { progress_instances = replicate slots 0 }

-- `get(index)`: a handle is the index of its counter. Out of range it panics.
unfoldable pub handle : ℕ → ProgressObject → Option ℕ
handle index p = elim (get_elem? p.progress_instances index) [ none ↦ none | some _ ↦ some index ]

abbrev pub counter : List ℕ → ℕ → ℕ
counter xs i = elim (get_elem? xs i) [ none ↦ 0 | some n ↦ n ]

-- `fetch_add` on the counter of a handle
unfoldable pub fetch_add : ℕ → ℕ → ProgressObject → ProgressObject
fetch_add i amount p = record p {
  progress_instances =
      set p.progress_instances i (add_usize (counter p.progress_instances i) amount);
}

-- ProgressHandle::set
unfoldable pub set_progress : ℕ → ℕ → ProgressObject → ProgressObject
set_progress i amount p = record p { progress_instances = set p.progress_instances i amount }

-- ProgressHandle::skip
unfoldable pub skip : ℕ → ℕ → ProgressObject → ProgressObject
skip i amount p =
    let added = fetch_add i amount p in
    record added { bytes_last_update = add_usize added.bytes_last_update amount }

-- An update, and the signals that it sends.
abbrev pub Sent : Type 0
Sent = ProgressObject × List DownloadManagerSignal

unfoldable pub push_update : Bool → ℕ → ProgressObject → Option Sent
push_update false bytes_remaining p = some (p, [])
push_update true bytes_remaining p = do
  average_speed ← Rolling.get_average p.rolling
  let time_remaining = bytes_remaining / 1000 / max average_speed 1
  some (p, update_ui_stats average_speed time_remaining ∷ update_ui_queue ∷ [])

unfoldable pub bytes_since_last_update : ProgressObject → ℕ
bytes_since_last_update p = saturating_sub (sum p) p.bytes_last_update

-- `fires` and `pushes` are the two throttles; `speed` takes bytes and milliseconds.
unfoldable pub calculate_update : Bool → Bool → (ℕ → ℕ → ℕ) → ℕ → ProgressObject → Option Sent
calculate_update false pushes speed time p = some (p, [])
calculate_update true pushes speed time p =
    let kilobytes_per_second = speed (bytes_since_last_update p) time in
    let bytes_remaining = saturating_sub (get_max p) (sum p) in
    push_update pushes bytes_remaining (record p {
      bytes_last_update = sum p;
      rolling = Rolling.update kilobytes_per_second p.rolling;
    })

-- ProgressHandle::add
unfoldable pub add : Bool → Bool → (ℕ → ℕ → ℕ) → ℕ → ℕ → ℕ → ProgressObject → Option Sent
add fires pushes speed time i amount p =
    calculate_update fires pushes speed time (fetch_add i amount p)
