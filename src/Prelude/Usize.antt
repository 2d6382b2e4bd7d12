-- ===== src/Prelude/Usize.antt =====
-- Unsigned words of 64 bits (`usize`, `u64`). Sums wrap, as in a release build.
use Prim.Native.Nat.{ℕ, ◌+◌, ◌-◌, ◌%◌, ◌^◌, ◌≤◌, ◌<◌}
use mathlib.Core.Path.{◌≡◌}
use native.Mathlib.Omega.{arith}

abbrev pub usize_mod : ℕ
usize_mod = 2 ^ 64

unfoldable pub add_usize : ℕ → ℕ → ℕ
add_usize a b = (a + b) % usize_mod

-- `saturating_sub`, which the truncated difference is
abbrev pub saturating_sub : ℕ → ℕ → ℕ
saturating_sub a b = a - b

pub add_usize_exact : (a b : ℕ) → a + b < usize_mod → add_usize a b ≡ a + b
unfolding add_usize
add_usize_exact a b h = omega arith

pub add_usize-le : (a b : ℕ) → add_usize a b ≤ a + b
unfolding add_usize
add_usize-le a b = omega arith

pub add_usize-lt : (a b : ℕ) → add_usize a b < usize_mod
unfolding add_usize
add_usize-lt a b = omega arith
