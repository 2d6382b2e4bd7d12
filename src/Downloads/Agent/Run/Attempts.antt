-- ===== src/Downloads/Agent/Run/Attempts.antt =====
-- Which of the attempts at a bucket decides what becomes of it.
use drop_app.Prelude.{
  ℕ, zero, suc, ◌<◌, ◌≡◌, refl, ◌⊎◌, inl, inr, Bool, true, false, arith, Bool-cases,
}
use drop_app.Downloads.Agent.Run.{
  Attempt, finished, failed, TaskEnd, completed, gave_up, may_retry, attempts, run_task,
}

abbrev pub end_of : Attempt → TaskEnd
end_of finished = completed
end_of Attempt.stopped = TaskEnd.stopped
end_of (failed e) = gave_up e

-- An attempt after which another is made.
abbrev pub is_retried : Attempt → Bool
is_retried finished = false
is_retried Attempt.stopped = false
is_retried (failed e) = may_retry e

-- Attempt `k` decides: all before it are retried, and it is not, or is the last.
abbrev pub Decides : (ℕ → Attempt) → ℕ → Type 0
Decides fetch k =
    (k < 3)
    × ((j : ℕ) → j < k → is_retried (fetch j) ≡ true)
    × ((k ≡ 2) ⊎ (is_retried (fetch k) ≡ false))

lt_one : (j : ℕ) → j < 1 → j ≡ 0
lt_one j h = omega arith

below_two :
    (fetch : ℕ → Attempt)
    → is_retried (fetch 0) ≡ true
    → is_retried (fetch 1) ≡ true
    → (j : ℕ) → j < 2
    → is_retried (fetch j) ≡ true
below_two fetch a b zero h = a
below_two fetch a b (suc zero) h = b
below_two fetch a b (suc (suc j)) h = absurd (omega arith)

-- A task makes at most three attempts, and ends as the first that is not retried ends, or the third:
-- a finished bucket, a stopped one, or the error that is sent to the manager.
pub run_task_decided :
    (fetch : ℕ → Attempt) → (k : ℕ) × Decides fetch k × (run_task fetch ≡ end_of (fetch k))
unfolding run_task attempts
run_task_decided fetch = elim (Bool-cases (is_retried (fetch 0))) [
  | inr first ↦ (0, (omega arith, λ j h. absurd (omega arith), inr first), ground arith)
  | inl again ↦ elim (Bool-cases (is_retried (fetch 1))) [
    | inr second ↦ (1, (omega arith, λ j h. rw (lt_one j h) again, inr second), ground arith)
    | inl third ↦ (2, (omega arith, below_two fetch again third, inl refl), ground arith)
  ]
]
