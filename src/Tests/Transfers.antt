-- ===== src/Tests/Transfers.antt =====
-- Progress and speed.
use drop_app.Prelude.{ℕ, ◌+◌, ◌≡◌, true, some, List, [], ◌∷◌, arith}
use drop_app.Manager.Signals.{DownloadManagerSignal}
use drop_app.Manager.Rolling.{RollingProgressWindow, IsWithin}
use drop_app.Manager.Progress.{ProgressObject, sum, add, bytes_since_last_update}
use drop_app.Manager.Progress.Accounting.{add_lem}

abbrev window_one : RollingProgressWindow
window_one = record { window = 5 ∷ 7 ∷ 0 ∷ []; current = 2 }

window_one-IsWithin : IsWithin 0 9 window_one
window_one-IsWithin = record {
  slots = omega arith;
  no_wrap = omega arith;
  valid = ((omega arith, omega arith), ((omega arith, omega arith), tt));
}

abbrev progress_one : ProgressObject
progress_one = record {
  max_bytes = 100;
  progress_instances = 10 ∷ 20 ∷ [];
  bytes_last_update = 15;
  rolling = window_one;
}

abbrev speed_of : ℕ → ℕ → ℕ
speed_of bytes time = 3

add_lem_example :
    (p' : ProgressObject) × (signals : List DownloadManagerSignal) × (add true true speed_of 40 1 5
        progress_one
      ≡ some (p', signals))
    × IsWithin 0 9 p'.rolling
    × (sum p' ≡ sum progress_one + 5)
    × (bytes_since_last_update p' ≡ 0)
add_lem_example =
    add_lem 9 40 1 5 true true speed_of progress_one (omega arith) (λ bytes. omega arith)
      window_one-IsWithin (omega arith) (omega arith) (omega arith)
