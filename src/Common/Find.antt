-- ===== src/Common/Find.antt =====
-- std::string::find and std::string::replace.
use Prim.Native.Nat.{ℕ, zero, suc, ◌+◌, ◌-◌, ◌≤◌, ◌<◌}
use mathlib.Core.Path.{◌≡◌, refl, ap, sym, ◌∙◌}
use mathlib.Core.Logic.{◌≢◌, inl, inr}
use mathlib.Core.Bool.{Bool, true, false, ◌&&◌}
use mathlib.Core.List.{[], ◌∷◌, ◌++◌}
use mathlib.Core.Option
use mathlib.Core.Option.{Option, none, some}
use native.Mathlib.Nat.{add-zero, zero-add, suc-add}
use native.Mathlib.Omega.{arith}
use lite_chat_server.Common.Tests.{leb, nat_beq, if◌then◌else◌, Bool-cases}
use lite_chat_server.Common.Lists.{length, length-drop, take, drop, All}
use lite_chat_server.Common.Text.{Str, is_empty}

abbrev pub starts_with : Str → Str → Bool
starts_with [] s = true
starts_with (p ∷ pattern) [] = false
starts_with (p ∷ pattern) (c ∷ s) = nat_beq c p && starts_with pattern s

-- Where the pattern occurs first.
unfoldable pub index_of : Str → Str → Option ℕ
index_of pattern [] = if is_empty pattern then some 0 else none
index_of pattern (c ∷ s) =
    let later = Option.map suc (index_of pattern s) in
    if starts_with pattern (c ∷ s) then some 0 else later

-- s.find(pattern, pos); `none` is npos
unfoldable pub find_from : Str → Str → ℕ → Option ℕ
unfolding index_of
find_from pattern s pos =
    if leb pos (length s) then Option.map (λ i. pos + i) (index_of pattern (drop pos s)) else none

-- s.replace(pos, count, text)
abbrev pub replace : Str → ℕ → ℕ → Str → Str
replace s pos count text = take pos s ++ (text ++ drop (pos + count) s)

-- s[pos]
abbrev pub get_elem? : Str → ℕ → Option ℕ
get_elem? [] i = none
get_elem? (c ∷ s) zero = some c
get_elem? (c ∷ s) (suc i) = get_elem? s i

-- No byte of the text is `c`.
abbrev pub Lacks : ℕ → Str → Type 0
Lacks c = All (λ x. x ≢ c)

pub index_of-byte :
    (c : ℕ) (before rest : Str)
    → Lacks c before
    → index_of (c ∷ []) (before ++ c ∷ rest) ≡ some (length before)
unfolding index_of
index_of-byte c [] rest lacks = ground arith
index_of-byte c (x ∷ before) rest (ne, lacks) = ground (arith, index_of-byte c before rest lacks)

pub drop-append :
    (before rest : Str) (k : ℕ) → drop (length before + k) (before ++ rest) ≡ drop k rest
drop-append [] rest k = zero_left k
  where
    zero_left : (k : ℕ) → drop (0 + k) rest ≡ drop k rest
    zero_left k = simp zero-add
drop-append (x ∷ before) rest k = simp (suc-add, drop-append before rest k)

pub take-append : (before rest : Str) → take (length before) (before ++ rest) ≡ before
take-append [] rest = refl
take-append (x ∷ before) rest = ap (λ s. x ∷ s) (take-append before rest)

-- Replacing the middle of three parts.
pub replace-append :
    (before middle rest text : Str)
    → replace (before ++ (middle ++ rest)) (length before) (length middle) text
      ≡ before ++ (text ++ rest)
replace-append before middle rest text =
    let dropped : drop (length before + length middle) (before ++ (middle ++ rest)) ≡ rest =
      drop-append before (middle ++ rest) (length middle)
      ∙ ap (λ n. drop n (middle ++ rest)) (sym (add-zero (length middle)))
      ∙ drop-append middle rest 0 in
    rw (take-append before (middle ++ rest), dropped) refl

pub get_elem?-append :
    (before rest : Str) (k : ℕ) → get_elem? (before ++ rest) (length before + k) ≡ get_elem? rest k
get_elem?-append [] rest k = simp zero-add
get_elem?-append (x ∷ before) rest k = simp (suc-add, get_elem?-append before rest k)

drop-beyond : (n : ℕ) (s : Str) → length s < n → drop n s ≡ []
drop-beyond zero s h = absurd (omega arith)
drop-beyond (suc n) [] h = refl
drop-beyond (suc n) (c ∷ s) h = drop-beyond n s (omega arith)

-- A pattern that is not empty is found in what is behind the position, if at all.
pub find_from-index :
    (c : ℕ) (pattern s : Str) (pos : ℕ)
    → find_from (c ∷ pattern) s pos
      ≡ Option.map (λ i. pos + i) (index_of (c ∷ pattern) (drop pos s))
unfolding find_from
find_from-index c pattern s pos = elim (Bool-cases (leb pos (length s))) [
  | inl inside ↦ rw inside refl
  | inr beyond ↦ rw (beyond, drop-beyond pos s (ground (arith, beyond))) (nothing c pattern)
]
  where
    nothing : (c : ℕ) (pattern : Str) → none ≡ Option.map (λ i. pos + i) (index_of (c ∷ pattern) [])
    nothing c pattern = unfold index_of in refl

pub find_from-append :
    (c : ℕ) (pattern before rest : Str) (i k : ℕ)
    → index_of (c ∷ pattern) (drop k rest) ≡ some i
    → find_from (c ∷ pattern) (before ++ rest) (length before + k) ≡ some (length before + k + i)
find_from-append c pattern before rest i k e =
    rw
      (find_from-index c pattern (before ++ rest) (length before + k), drop-append before rest k, e)
      refl

pub find_from-append_none :
    (c : ℕ) (pattern before rest : Str) (k : ℕ)
    → index_of (c ∷ pattern) (drop k rest) ≡ none
    → find_from (c ∷ pattern) (before ++ rest) (length before + k) ≡ none
find_from-append_none c pattern before rest k e =
    rw
      (find_from-index c pattern (before ++ rest) (length before + k), drop-append before rest k, e)
      refl

-- A pattern fits only where there is room for it.
starts_with-le : (pattern s : Str) → starts_with pattern s ≡ true → length pattern ≤ length s
starts_with-le [] s h = omega arith
starts_with-le (p ∷ pattern) [] h = absurd (cc h)
starts_with-le (p ∷ pattern) (c ∷ s) h = omega (arith, starts_with-le pattern s (ground (arith, h)))

index_of-le :
    (pattern s : Str) (i : ℕ) → index_of pattern s ≡ some i → i + length pattern ≤ length s
unfolding index_of
index_of-le [] [] i h = ground arith
index_of-le (p ∷ pattern) [] i h = absurd (cc h)
index_of-le pattern (c ∷ s) i h =
    ground (arith, index_of-le pattern s (i - 1), starts_with-le pattern (c ∷ s))

pub find_from-le :
    (pattern s : Str) (pos i : ℕ)
    → find_from pattern s pos ≡ some i
    → (pos ≤ i) × (i + length pattern ≤ length s)
unfolding find_from
find_from-le pattern s pos i h =
    ground (arith, index_of-le pattern (drop pos s) (i - pos), length-drop pos s)

-- Where a pattern is found, there is its first byte.
index_of-get_elem? :
    (c : ℕ) (pattern s : Str) (i : ℕ) → index_of (c ∷ pattern) s ≡ some i → get_elem? s i ≡ some c
unfolding index_of
index_of-get_elem? c pattern [] i h = absurd (cc h)
index_of-get_elem? c pattern (x ∷ s) zero h = ground arith
index_of-get_elem? c pattern (x ∷ s) (suc i) h = ground (arith, index_of-get_elem? c pattern s i)

get_elem?-drop : (s : Str) (pos i : ℕ) → get_elem? (drop pos s) i ≡ get_elem? s (pos + i)
get_elem?-drop s zero i = simp zero-add
get_elem?-drop [] (suc pos) i = refl
get_elem?-drop (c ∷ s) (suc pos) i = simp (suc-add, get_elem?-drop s pos i)

pub find_from-get_elem? :
    (c : ℕ) (pattern s : Str) (pos i : ℕ)
    → find_from (c ∷ pattern) s pos ≡ some i
    → get_elem? s i ≡ some c
unfolding find_from
find_from-get_elem? c pattern s pos i h =
    ground
      (arith, index_of-get_elem? c pattern (drop pos s) (i - pos), get_elem?-drop s pos (i - pos))

-- A pattern that does not occur does not occur further on.
pub index_of-drop-none :
    (c : ℕ) (pattern s : Str) (k : ℕ)
    → index_of (c ∷ pattern) s ≡ none
    → index_of (c ∷ pattern) (drop k s) ≡ none
unfolding index_of
index_of-drop-none c pattern s zero h = h
index_of-drop-none c pattern [] (suc k) h = h
index_of-drop-none c pattern (x ∷ s) (suc k) h = index_of-drop-none c pattern s k (ground arith)
