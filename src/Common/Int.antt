-- ===== src/Common/Int.antt =====
-- Go's `int`, for values that a request may give with any sign. `negsuc n` is -(n + 1).
use Prim.Native.Nat.{ℕ, ◌≤◌}
use mathlib.Core.Path.{◌≡◌}
use mathlib.Core.Bool.{Bool, true, false, ◌||◌}
use native.Mathlib.Omega.{arith}
use cloudrail.Common.Tests.{ltb, ◌==◌}

pub data ℤ : Type 0 where
  pos : ℕ → ℤ
  negsuc : ℕ → ℤ

-- x < n
abbrev pub is_below : ℤ → ℕ → Bool
is_below (pos a) n = ltb a n
is_below (negsuc _) n = true

-- n < x
abbrev pub is_above : ℤ → ℕ → Bool
is_above (pos a) n = ltb n a
is_above (negsuc _) n = false

abbrev pub is_zero : ℤ → Bool
is_zero (pos a) = a == 0
is_zero (negsuc _) = false

-- The integer lies between two numbers.
abbrev pub Between : ℕ → ℕ → ℤ → Type 0
Between lo hi (pos a) = (lo ≤ a) × (a ≤ hi)
Between lo hi (negsuc _) = ⊥

pub Between-of_tests :
    (lo hi : ℕ) (x : ℤ) → (is_below x lo || is_above x hi) ≡ false → Between lo hi x
Between-of_tests lo hi (pos a) h = ground arith
Between-of_tests lo hi (negsuc a) h = cc

pub tests-of_Between :
    (lo hi : ℕ) (x : ℤ) → Between lo hi x → (is_below x lo || is_above x hi) ≡ false
tests-of_Between lo hi (pos a) h = ground arith
tests-of_Between lo hi (negsuc a) h = elim h [ ]
