-- ===== src/Common/Rows.antt =====
-- What holds of all rows of a list, through the functions that choose rows.
use Prim.Native.Nat.{ℕ, zero, suc}
use mathlib.Core.Path.{◌≡◌, refl, subst}
use mathlib.Core.Bool.{Bool, true, false}
use mathlib.Core.List.{List, [], ◌∷◌}
use mathlib.Core.Option.{Option, none, some}
use lite_chat_server.Common.Tests.{if◌then◌else◌}
use lite_chat_server.Common.Lists.{All, filter_map, find, select, take}

module _ {ℓ κ} {A : Type ℓ} (P : A → Type κ) where
  pub All-take : (n : ℕ) (xs : List A) → All P xs → All P (take n xs)
  All-take zero xs a = tt
  All-take (suc n) [] a = tt
  All-take (suc n) (x ∷ xs) (p, a) = (p, All-take n xs a)

  -- The rows that pass a test have what the test tells.
  pub select-All :
      (p : A → Bool) → ((x : A) → p x ≡ true → P x) → (xs : List A) → All P (select p xs)
  select-All p k [] = tt
  select-All p k (x ∷ xs) = kept (p x) (k x) (select-All p k xs)
    where
      kept :
          (b : Bool)
          → (b ≡ true → P x)
          → All P (select p xs)
          → All P (if b then x ∷ select p xs else select p xs)
      kept true good rest = (good refl, rest)
      kept false good rest = rest

module _ {A B : Type 0} (P : A → Type 0) (Q : B → Type 0) (f : A → Option B) where
  pub All-filter_map :
      ((x : A) (y : B) → f x ≡ some y → P x → Q y)
      → (xs : List A) → All P xs
      → All Q (filter_map f xs)
  All-filter_map k [] a = tt
  All-filter_map k (x ∷ xs) (p, a) = kept (f x) (λ y e. k x y e p) (All-filter_map k xs a)
    where
      kept :
          (o : Option B)
          → ((y : B) → o ≡ some y → Q y)
          → All Q (filter_map f xs)
          → All Q (elim o [ none ↦ filter_map f xs | some b ↦ b ∷ filter_map f xs ])
      kept none good rest = rest
      kept (some y) good rest = (good y refl, rest)

pub find-All :
    {A : Type 0} (P : A → Type 0) (p : A → Bool) (xs : List A) (x : A)
    → All P xs
    → find p xs ≡ some x
    → P x
find-All P p [] x a e = absurd (cc e)
find-All {A} P p (y ∷ xs) x (h, a) e = go (p y) (find-All P p xs x a) e
  where
    go : (b : Bool) → (find p xs ≡ some x → P x) → (if b then some y else find p xs) ≡ some x → P x
    go true later e = subst P (cc e) h
    go false later e = later e
