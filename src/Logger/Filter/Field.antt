-- ===== src/Logger/Filter/Field.antt =====
-- A field "password" in a message: where the filter finds it, and what one turn makes of it.
use mathlib.Core.List.{append_assoc}
use mathlib.Core.Option
use mathlib.Core.Option.{some_inj}
use native.Mathlib.Nat.{zero-add}
use lite_chat_server.Common.{
  Lacks, Str, [], ap, arith, drop, false, find_from, get_elem?, get_elem?-append, index_of, length,
  length-append, lit, ltb, lt→ltb, none, refl, replace, replace-append, some, starts_with, subst,
  sym, true, ℕ, ◌+◌, ◌++◌, ◌-◌, ◌∷◌, ◌∙◌, ◌≡◌, find_from-append, find_from-append_none,
  find_from-index, index_of-byte, nat_eq,
}
use lite_chat_server.Logger.Filter.{mask_at, quoted_value, value_of}

-- A message with the field "password": what stands between the word and the colon, the value in
-- quotes, and what is before and behind.
abbrev pub with_field : Str → Str → Str → Str → Str
with_field pre mid value post =
    pre ++ ((lit "password" ++ mid) ++ (b':' ∷ b'"' ∷ (value ++ b'"' ∷ post)))

-- "password" does not overlap itself, so that none begins in what is before it.
no_overlap :
    (c : ℕ) (pre t : Str)
    → starts_with (lit "password") (c ∷ pre) ≡ false
    → starts_with (lit "password") (c ∷ pre ++ (lit "password" ++ t)) ≡ false
unfolding lit
no_overlap c [] t e = ground arith
no_overlap c (c1 ∷ []) t e = ground arith
no_overlap c (c1 ∷ c2 ∷ []) t e = ground arith
no_overlap c (c1 ∷ c2 ∷ c3 ∷ []) t e = ground arith
no_overlap c (c1 ∷ c2 ∷ c3 ∷ c4 ∷ []) t e = ground arith
no_overlap c (c1 ∷ c2 ∷ c3 ∷ c4 ∷ c5 ∷ []) t e = ground arith
no_overlap c (c1 ∷ c2 ∷ c3 ∷ c4 ∷ c5 ∷ c6 ∷ []) t e = ground arith
no_overlap c (c1 ∷ c2 ∷ c3 ∷ c4 ∷ c5 ∷ c6 ∷ c7 ∷ pre) t e = e

index_of-here : (t : Str) → index_of (lit "password") (lit "password" ++ t) ≡ some 0
unfolding lit index_of
index_of-here t = refl

-- The first "password" is the one behind a text without any.
index_of-first :
    (pre t : Str)
    → index_of (lit "password") pre ≡ none
    → index_of (lit "password") (pre ++ (lit "password" ++ t)) ≡ some (length pre)
unfolding index_of
index_of-first [] t e = index_of-here t
index_of-first (c ∷ pre) t e = ground (arith, index_of-first pre t, no_overlap c pre t)

mid-Lacks : (mid : Str) → Lacks b':' mid → Lacks b':' (lit "password" ++ mid)
unfolding lit
mid-Lacks mid lacks = grind arith

module _ (pre mid secret post : Str) where
  -- what stands before the colon
  pub head : Str
  head = pre ++ (lit "password" ++ mid)

  pub tail : Str
  tail = b':' ∷ b'"' ∷ (secret ++ b'"' ∷ post)

  regroup : with_field pre mid secret post ≡ head ++ tail
  unfolding head tail
  regroup = sym (append_assoc pre (lit "password" ++ mid) tail)

  colon_at :
      Lacks b':' mid
      → find_from (b':' ∷ []) (with_field pre mid secret post) (length pre) ≡ some (length head)
  unfolding head
  colon_at no_colon =
      subst (λ k. find_from (b':' ∷ []) (with_field pre mid secret post) k ≡ some (length head))
        (omega arith)
        (find_from-append b':' [] pre _ (length (lit "password" ++ mid)) 0
            (index_of-byte b':' (lit "password" ++ mid) _ (mid-Lacks mid no_colon))
          ∙ ap some (omega (arith, length-append pre (lit "password" ++ mid))))

  quoted_value-field :
      Lacks b'"' secret
      → quoted_value (head ++ tail) (length head)
        ≡ some (length head + 2, length head + 2 + length secret)
  unfolding quoted_value tail
  quoted_value-field no_quote =
      let quote : get_elem? (head ++ tail) (length head + 1) ≡ some b'"' =
        get_elem?-append head tail 1 in
      let closed : find_from (b'"' ∷ []) (head ++ tail) (length head + 2)
          ≡ some (length head + 2 + length secret) =
        find_from-append b'"' [] head tail (length secret) 2
          (index_of-byte b'"' secret post no_quote) in
      let room : ltb (length head + 1) (length (head ++ tail)) ≡ true =
        lt→ltb _ _ (omega (arith, length-append head tail)) in
      ground (arith, room, quote, closed)

  value_of-field :
      Lacks b':' mid
      → Lacks b'"' secret
      → value_of (with_field pre mid secret post) (length pre)
        ≡ some (length head + 2, length head + 2 + length secret)
  unfolding value_of
  value_of-field no_colon no_quote =
      rw (colon_at no_colon, value_of)
        (subst
          (λ s.
            quoted_value s (length head) ≡ some (length head + 2, length head + 2 + length secret))
          (sym regroup) (quoted_value-field no_quote))

  replace-field :
      (text : Str)
      → replace (with_field pre mid secret post) (length head + 2) (length secret) text
        ≡ with_field pre mid text post
  unfolding head
  replace-field text =
      let opened : Str = b':' ∷ b'"' ∷ [] in
      let split : (value : Str)
          → with_field pre mid value post ≡ (head ++ opened) ++ (value ++ b'"' ∷ post) =
        λ value. sym (
          append_assoc head opened (value ++ b'"' ∷ post)
          ∙ append_assoc pre (lit "password" ++ mid) (opened ++ (value ++ b'"' ∷ post))) in
      let size : length head + 2 ≡ length (head ++ opened) =
        omega (arith, length-append head opened) in
      ap (λ n. replace (with_field pre mid secret post) n (length secret) text) size
      ∙ ap (λ s. replace s (length (head ++ opened)) (length secret) text) (split secret)
      ∙ replace-append (head ++ opened) secret (b'"' ∷ post) text
      ∙ sym (split text)

  -- The value is replaced, and the search goes on behind where it ended.
  pub mask_at-field :
      Lacks b':' mid
      → Lacks b'"' secret
      → mask_at (with_field pre mid secret post) (length pre)
        ≡ (with_field pre mid (lit "***") post, length head + 2 + length secret + 1)
  unfolding mask_at
  mask_at-field no_colon no_quote =
      let count : length head + 2 + length secret - (length head + 2) ≡ length secret =
        omega arith in
      rw (value_of-field no_colon no_quote, mask_at, count)
        (ap (λ s. (s, length head + 2 + length secret + 1)) (replace-field (lit "***")))

  pub no_more_passwords :
      index_of (lit "password") (drop (length secret + 1) (lit "***" ++ b'"' ∷ post)) ≡ none
      → find_from
          (lit "password")
          (with_field pre mid (lit "***") post)
          (length head + 2 + length secret + 1)
        ≡ none
  unfolding head lit
  no_more_passwords h =
      let opened : Str = b':' ∷ b'"' ∷ [] in
      let rest : Str = lit "***" ++ b'"' ∷ post in
      let split : with_field pre mid (lit "***") post ≡ (head ++ opened) ++ rest = sym (
        append_assoc head opened rest
        ∙ append_assoc pre (lit "password" ++ mid) (opened ++ rest)) in
      let place : length head + 2 + length secret + 1
          ≡ length (head ++ opened) + (length secret + 1) =
        omega (arith, length-append head opened) in
      ap (λ s. find_from (lit "password") s (length head + 2 + length secret + 1)) split
      ∙ ap (find_from (lit "password") ((head ++ opened) ++ rest)) place
      ∙ find_from-append_none b'p' _ (head ++ opened) rest (length secret + 1) h

  pub first_at :
      index_of (lit "password") pre ≡ none
      → find_from (lit "password") (with_field pre mid secret post) 0 ≡ some (length pre)
  unfolding lit tail
  first_at first =
      find_from-index b'p' _ (with_field pre mid secret post) 0
      ∙ ap (λ s. Option.map (λ i. 0 + i) (index_of (lit "password") (pre ++ s)))
          (append_assoc (lit "password") mid tail)
      ∙ ap (Option.map (λ i. 0 + i)) (index_of-first pre (mid ++ tail) first)
      ∙ ap some (zero-add (length pre))
