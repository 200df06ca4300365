-- ===== src/Common/Maps.antt =====
-- std::unordered_map as an association list with one entry for a key; the program never depends on
-- the order of its entries.
use mathlib.Core.Path.{◌≡◌, refl}
use mathlib.Core.Logic.{◌⊎◌, ◌≢◌, inl, inr}
use mathlib.Core.List.{List, [], ◌∷◌}
use mathlib.Core.Option.{Option, none, some}
use native.Mathlib.Omega.{arith}
use lite_chat_server.Common.Tests.{if◌then◌else◌, Eq, ◌==◌, Bool-cases, Option-cases}

module _ {ℓ κ} {K : Type ℓ} {V : Type κ} ⦃e : Eq K⦄ where
  -- find(k), and the value behind the iterator
  unfoldable pub lookup : K → List (K × V) → Option V
  lookup key [] = none
  lookup key ((k, value) ∷ rest) = if k == key then some value else lookup key rest

  -- m[k] = v
  unfoldable pub insert : K → V → List (K × V) → List (K × V)
  insert key value [] = (key, value) ∷ []
  insert key value ((k, old) ∷ rest) =
      if k == key then (key, value) ∷ rest else (k, old) ∷ insert key value rest

  -- erase(k)
  unfoldable pub erase : K → List (K × V) → List (K × V)
  erase k [] = []
  erase k ((j, w) ∷ m) = let rest = erase k m in if j == k then rest else (j, w) ∷ rest

  -- m[k]->f(): the object behind the pointer that is stored under `k`
  unfoldable pub modify : K → (V → V) → List (K × V) → List (K × V)
  modify k f [] = []
  modify k f ((j, w) ∷ m) = (j, if j == k then f w else w) ∷ modify k f m

  pub lookup-insert :
      (key asked : K) (value : V) (entries : List (K × V))
      → lookup asked (insert key value entries)
        ≡ (if key == asked then some value else lookup asked entries)
  unfolding insert lookup
  lookup-insert key asked value [] = refl
  lookup-insert key asked value ((i, w) ∷ entries) = ground (
    arith,
    lookup-insert key asked value entries,
    e.beq_iff key asked,
    e.beq_iff i key,
    e.beq_iff i asked,
  )

  pub lookup-erase :
      (k j : K) (m : List (K × V)) → lookup j (erase k m) ≡ (if k == j then none else lookup j m)
  unfolding lookup erase
  lookup-erase k j [] = ground arith
  lookup-erase k j ((i, w) ∷ m) =
      ground (arith, e.beq_iff k j, e.beq_iff i k, e.beq_iff i j, lookup-erase k j m)

  pub lookup-modify :
      (k j : K) (f : V → V) (m : List (K × V))
      → lookup j (modify k f m)
        ≡ (if k == j then (elim (lookup j m) [ none ↦ none | some v ↦ some (f v) ]) else lookup j m)
  unfolding lookup modify
  lookup-modify k j f [] = ground arith
  lookup-modify k j f ((i, w) ∷ m) =
      ground (arith, e.beq_iff k j, e.beq_iff i k, e.beq_iff i j, lookup-modify k j f m)

  -- What is found after a write is what was written, or was there before.
  pub modify_inv :
      (k j : K) (f : V → V) (m : List (K × V)) (x : V)
      → lookup j (modify k f m) ≡ some x
      → ((k ≡ j) × ((v : V) × (lookup j m ≡ some v) × (x ≡ f v)))
        ⊎ ((k ≢ j) × (lookup j m ≡ some x))
  modify_inv k j f m x h = elim (Bool-cases (k == j)) [
    | inl hit ↦ elim (Option-cases (lookup j m)) [
      | inl miss ↦ absurd (ground (arith, lookup-modify k j f m))
      | inr (v, at) ↦ inl ((e.beq_iff k j).0 hit, (v, at, ground (arith, lookup-modify k j f m)))
    ]
    | inr other ↦ inr ((λ q. ground (arith, e.beq_iff k j)), ground (arith, lookup-modify k j f m))
  ]

  pub insert_inv :
      (k j : K) (v : V) (m : List (K × V)) (x : V)
      → lookup j (insert k v m) ≡ some x
      → ((k ≡ j) × (x ≡ v)) ⊎ ((k ≢ j) × (lookup j m ≡ some x))
  insert_inv k j v m x h = elim (Bool-cases (k == j)) [
    | inl hit ↦ inl ((e.beq_iff k j).0 hit, ground (arith, lookup-insert k j v m))
    | inr other ↦ inr ((λ q. ground (arith, e.beq_iff k j)), ground (arith, lookup-insert k j v m))
  ]

  pub lookup-insert_self : (k : K) (v : V) (m : List (K × V)) → lookup k (insert k v m) ≡ some v
  lookup-insert_self k v m = ground (arith, lookup-insert k k v m, e.beq_iff k k)

  pub lookup-insert_ne :
      (k j : K) (v : V) (m : List (K × V)) → k ≢ j → lookup j (insert k v m) ≡ lookup j m
  lookup-insert_ne k j v m n = ground (arith, lookup-insert k j v m, e.beq_iff k j)

  pub lookup-modify_self :
      (k : K) (f : V → V) (m : List (K × V)) (v : V)
      → lookup k m ≡ some v
      → lookup k (modify k f m) ≡ some (f v)
  lookup-modify_self k f m v h = ground (arith, lookup-modify k k f m, e.beq_iff k k)

  pub lookup-modify_ne :
      (k j : K) (f : V → V) (m : List (K × V)) → k ≢ j → lookup j (modify k f m) ≡ lookup j m
  lookup-modify_ne k j f m n = ground (arith, lookup-modify k j f m, e.beq_iff k j)

  pub lookup-erase_self : (k : K) (m : List (K × V)) → lookup k (erase k m) ≡ none
  lookup-erase_self k m = ground (arith, lookup-erase k k m, e.beq_iff k k)

  pub lookup-erase_ne : (k j : K) (m : List (K × V)) → k ≢ j → lookup j (erase k m) ≡ lookup j m
  lookup-erase_ne k j m n = ground (arith, lookup-erase k j m, e.beq_iff k j)
