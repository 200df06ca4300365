-- ===== src/Common/Counts.antt =====
-- How often a number occurs in a list.
use Prim.Native.Nat.{ℕ, ◌+◌}
use mathlib.Core.Path.{◌≡◌}
use mathlib.Core.List.{List, [], ◌∷◌, ◌++◌}
use native.Mathlib.Omega.{arith}
use lite_chat_server.Common.Tests.{if◌then◌else◌, nat_beq}

abbrev pub count : ℕ → List ℕ → ℕ
count n [] = 0
count n (x ∷ xs) = (if nat_beq x n then 1 else 0) + count n xs

pub count-snoc : (n x : ℕ) (xs : List ℕ) → count n (xs ++ x ∷ []) ≡ count n xs + count n (x ∷ [])
count-snoc n x [] = ground arith
count-snoc n x (y ∷ xs) = omega (arith, count-snoc n x xs)
