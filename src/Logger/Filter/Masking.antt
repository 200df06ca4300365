-- ===== src/Logger/Filter/Masking.antt =====
-- What the filter does to a message with a field "password".
use mathlib.Core.Option.{some_inj}
use lite_chat_server.Common.{
  Lacks, Str, [], ap, arith, drop, drop-append, find_from, index_of, length, length-append, lit,
  none, refl, some, subst, suc, sym, ℕ, ◌+◌, ◌++◌, ◌-◌, ◌<◌, ◌∷◌, ◌∙◌, ◌≡◌, index_of-drop-none,
  nat_eq,
}
use lite_chat_server.Logger.Filter.{filter_loop, filter_sensitive_info, mask_at}
use lite_chat_server.Logger.Filter.Ending.{filter_sensitive_info-ends}
use lite_chat_server.Logger.Filter.Field.{with_field, first_at, mask_at-field, no_more_passwords}

-- A loop with one turn.
loop-one_turn :
    (fuel : ℕ) (m m' : Str) (found pos' : ℕ)
    → find_from (lit "password") m 0 ≡ some found
    → mask_at m found ≡ (m', pos')
    → find_from (lit "password") m' pos' ≡ none
    → filter_loop (suc (suc fuel)) m 0 ≡ some m'
unfolding filter_loop
loop-one_turn fuel m m' found pos' e e' e'' =
    rw (e, filter_loop, e', e'') (ap (λ (r : Str × ℕ). some r.0) e')

one_turn :
    (m m' : Str) (found pos' : ℕ)
    → 0 < length m
    → find_from (lit "password") m 0 ≡ some found
    → mask_at m found ≡ (m', pos')
    → find_from (lit "password") m' pos' ≡ none
    → filter_sensitive_info m ≡ m'
one_turn m m' found pos' some_text e e' e'' = some_inj.0 (
    sym (filter_sensitive_info-ends m)
    ∙ ap (λ n. filter_loop (suc n) m 0) (omega arith)
    ∙ loop-one_turn (length m - 1) m m' found pos' e e' e'')

field-not_empty : (pre mid secret post : Str) → 0 < length (with_field pre mid secret post)
field-not_empty pre mid secret post = omega (
  arith,
  length-append pre ((lit "password" ++ mid) ++ (b':' ∷ b'"' ∷ (secret ++ b'"' ∷ post))),
  length-append (lit "password" ++ mid) (b':' ∷ b'"' ∷ (secret ++ b'"' ∷ post)),
)

module _ (pre mid secret post : Str) where
  -- With no "password" before the field, and none where the search goes on.
  filter-masks_one :
      index_of (lit "password") pre ≡ none
      → Lacks b':' mid
      → Lacks b'"' secret
      → index_of (lit "password") (drop (length secret + 1) (lit "***" ++ b'"' ∷ post)) ≡ none
      → filter_sensitive_info (with_field pre mid secret post) ≡ with_field pre mid (lit "***") post
  filter-masks_one first no_colon no_quote no_more =
      one_turn (with_field pre mid secret post) (with_field pre mid (lit "***") post) (length pre) _
        (field-not_empty pre mid secret post) (first_at pre mid secret post first)
        (mask_at-field pre mid secret post no_colon no_quote)
        (no_more_passwords pre mid secret post no_more)

stars-none :
    (post : Str)
    → index_of (lit "password") post ≡ none
    → index_of (lit "password") (lit "***" ++ b'"' ∷ post) ≡ none
unfolding lit index_of
stars-none post e = rw e refl

drop-stars :
    (post : Str) (n : ℕ) → 3 < n → drop (n + 1) (lit "***" ++ b'"' ∷ post) ≡ drop (n - 3) post
unfolding lit
drop-stars post n h =
    let closed : Str = lit "***" ++ b'"' ∷ [] in
    let place : n + 1 ≡ length closed + (n - 3) = omega arith in
    ap (λ k. drop k (closed ++ post)) place ∙ drop-append closed post (n - 3)

drop-none :
    (s : Str) (k : ℕ)
    → index_of (lit "password") s ≡ none
    → index_of (lit "password") (drop k s) ≡ none
unfolding lit
drop-none s k h = index_of-drop-none b'p' _ s k h

-- In a message with one "password", followed by a colon and a value in quotes, FilterSensitiveInfo
-- replaces the value by "***", whatever its length, and changes nothing else. The message is any
-- text without "password", that word, any text without a colon, the colon, the value, which has no
-- quote, and again any text without "password".
pub filter-masks :
    (pre mid secret post : Str)
    → index_of (lit "password") pre ≡ none
    → Lacks b':' mid
    → Lacks b'"' secret
    → index_of (lit "password") post ≡ none
    → filter_sensitive_info (with_field pre mid secret post) ≡ with_field pre mid (lit "***") post
filter-masks pre mid secret post first no_colon no_quote last =
    filter-masks_one pre mid secret post first no_colon no_quote
      (drop-none (lit "***" ++ b'"' ∷ post) (length secret + 1) (stars-none post last))

-- If in such a message the value is longer than 3 bytes, then a "password" behind it is looked for
-- only from as many bytes behind the closing quote as the value is longer than 3: where none begins
-- from there on, everything behind the quote stays as it is, also a "password" nearer by.
pub filter-skips :
    (pre mid secret post : Str)
    → index_of (lit "password") pre ≡ none
    → Lacks b':' mid
    → Lacks b'"' secret
    → 3 < length secret
    → index_of (lit "password") (drop (length secret - 3) post) ≡ none
    → filter_sensitive_info (with_field pre mid secret post) ≡ with_field pre mid (lit "***") post
filter-skips pre mid secret post first no_colon no_quote long late =
    filter-masks_one pre mid secret post first no_colon no_quote (
      subst (λ s. index_of (lit "password") s ≡ none) (sym (drop-stars post (length secret) long))
        late)
