-- ===== src/Common/Keys.antt =====
-- Maps hold one entry for a key, so that their length counts keys.
use Prim.Native.Nat.{suc}
use mathlib.Core.Path.{◌≡◌, refl, ap}
use mathlib.Core.List.{List, [], ◌∷◌}
use mathlib.Core.Option.{none, some}
use native.Mathlib.Omega.{arith}
use lite_chat_server.Common.Tests.{Eq}
use lite_chat_server.Common.Lists.{length}
use lite_chat_server.Common.Maps.{
  erase, insert, lookup, lookup-erase, lookup-insert, lookup-modify, modify,
}

module _ {ℓ κ} {K : Type ℓ} {V : Type κ} ⦃e : Eq K⦄ where
  abbrev pub KeysDistinct : List (K × V) → Type κ
  KeysDistinct [] = Unit
  KeysDistinct ((k, v) ∷ m) = (lookup k m ≡ none) × KeysDistinct m

  pub length-modify : (k : K) (f : V → V) (m : List (K × V)) → length (modify k f m) ≡ length m
  unfolding modify
  length-modify k f [] = refl
  length-modify k f ((j, w) ∷ m) = ap suc (length-modify k f m)

  pub modify-KeysDistinct :
      (k : K) (f : V → V) (m : List (K × V)) → KeysDistinct m → KeysDistinct (modify k f m)
  unfolding modify
  modify-KeysDistinct k f [] d = tt
  modify-KeysDistinct k f ((j, w) ∷ m) d =
      (ground (arith, lookup-modify k j f m, d.0), modify-KeysDistinct k f m d.1)

  pub insert-KeysDistinct :
      (k : K) (v : V) (m : List (K × V)) → KeysDistinct m → KeysDistinct (insert k v m)
  unfolding insert lookup
  insert-KeysDistinct k v [] d = (refl, tt)
  insert-KeysDistinct k v ((j, w) ∷ m) d =
      ground
        (arith, lookup-insert k j v m, e.beq_iff j k, e.beq_iff k j, insert-KeysDistinct k v m d.1)

  pub length-insert_fresh :
      (k : K) (v : V) (m : List (K × V))
      → lookup k m ≡ none
      → length (insert k v m) ≡ suc (length m)
  unfolding insert lookup
  length-insert_fresh k v [] h = refl
  length-insert_fresh k v ((j, w) ∷ m) h = ground (arith, length-insert_fresh k v m)

  pub erase-KeysDistinct : (k : K) (m : List (K × V)) → KeysDistinct m → KeysDistinct (erase k m)
  unfolding erase lookup
  erase-KeysDistinct k [] d = tt
  erase-KeysDistinct k ((j, w) ∷ m) d =
      ground (arith, lookup-erase k j m, e.beq_iff k j, erase-KeysDistinct k m d.1)

  pub erase-absent : (k : K) (m : List (K × V)) → lookup k m ≡ none → erase k m ≡ m
  unfolding erase lookup
  erase-absent k [] h = refl
  erase-absent k ((j, w) ∷ m) h = ground (arith, erase-absent k m)

  pub length-erase_found :
      (k : K) (v : V) (m : List (K × V))
      → KeysDistinct m
      → lookup k m ≡ some v
      → suc (length (erase k m)) ≡ length m
  unfolding erase lookup
  length-erase_found k v [] d h = cc
  length-erase_found k v ((j, w) ∷ m) d h =
      ground (arith, e.beq_iff j k, erase-absent k m, length-erase_found k v m d.1, d.0)

  pub lookup-head : (j : K) (w : V) (m : List (K × V)) → lookup j ((j, w) ∷ m) ≡ some w
  unfolding lookup
  lookup-head j w m = ground (arith, e.beq_iff j j)

  -- A key of the tail is not the head's.
  pub lookup-tail :
      (j k : K) (w v : V) (m : List (K × V))
      → lookup j m ≡ none
      → lookup k m ≡ some v
      → lookup k ((j, w) ∷ m) ≡ some v
  unfolding lookup
  lookup-tail j k w v m gone h = ground (arith, e.beq_iff k j, e.beq_iff j k)
