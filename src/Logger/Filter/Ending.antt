-- ===== src/Logger/Filter/Ending.antt =====
-- Whether the loop of the filter ends: how much text is left behind the position.
use lite_chat_server.Common.{
  Option, Str, [], ap, arith, drop, find_from, get_elem?, length, length-append, length-drop, lit,
  none, refl, replace, some, suc, take, zero, ℕ, ◌+◌, ◌++◌, ◌-◌, ◌<◌, ◌∷◌, ◌≡◌, ◌≤◌,
  find_from-get_elem?, find_from-le, nat_eq, length-take, dec_lt,
}
use lite_chat_server.Logger.Filter.{
  filter_loop, filter_sensitive_info, mask_at, quoted_value, value_of,
}

value_of-bounds :
    (result : Str) (pos value_start value_end : ℕ)
    → value_of result pos ≡ some (value_start, value_end)
    → (pos + 2 ≤ value_start)
      × (value_start ≤ value_end)
      × (value_end + 1 ≤ length result)
      × (get_elem? result (value_start - 2) ≡ some b':')
unfolding value_of quoted_value lit
value_of-bounds result pos value_start value_end e = ground (
  arith,
  find_from-le (b':' ∷ []) result pos (value_start - 2),
  find_from-get_elem? b':' [] result pos (value_start - 2),
  find_from-le (b'"' ∷ []) result value_start value_end,
)

length-replace :
    (s : Str) (pos count : ℕ) (text : Str)
    → pos + count ≤ length s
    → length (replace s pos count text) ≡ length s + length text - count
length-replace s pos count text h = omega (
  arith,
  length-append (take pos s) (text ++ drop (pos + count) s),
  length-append text (drop (pos + count) s),
  length-take pos s,
  length-drop (pos + count) s,
)

length_mask : length (lit "***") ≡ 3
unfolding lit
length_mask = refl

-- Each turn leaves less behind the position.
mask_at-shrinks :
    (result : Str) (pos : ℕ)
    → get_elem? result pos ≡ some b'p'
    → pos + 8 ≤ length result
    → length (mask_at result pos).0 - (mask_at result pos).1 < length result - pos
unfolding mask_at
mask_at-shrinks result pos begins inside = go (value_of result pos) (value_of-bounds result pos)
  where
    not_the_colon :
        (value_start : ℕ)
        → get_elem? result (value_start - 2) ≡ some b':'
        → pos + 2 ≤ value_start
        → pos + 3 ≤ value_start
    not_the_colon value_start e h = elim (dec_lt (pos + 2) value_start) [
      | yes further ↦ omega arith
      | no here ↦
          let same : value_start - 2 ≡ pos = omega arith in
          absurd (cc (begins, e, ap (get_elem? result) same))
    ]

    go :
        (o : Option (ℕ × ℕ))
        → ((value_start value_end : ℕ)
            → o ≡ some (value_start, value_end)
            → (pos + 2 ≤ value_start)
              × (value_start ≤ value_end)
              × (value_end + 1 ≤ length result)
              × (get_elem? result (value_start - 2) ≡ some b':'))
        → let r : Str × ℕ = elim o as (λ _. Str × ℕ) [
          | none ↦ (result, pos + 1)
          | some (value_start, value_end) ↦
              (replace result value_start (value_end - value_start) (lit "***"), value_end + 1)
        ] in
          length r.0 - r.1 < length result - pos
    go none bounds = omega arith
    go (some (value_start, value_end)) bounds =
        let (low, order, high, colon) = bounds value_start value_end refl in
        omega (
          arith,
          not_the_colon value_start colon low,
          length-replace result value_start (value_end - value_start) (lit "***"),
          length_mask,
        )

password_at :
    (result : Str) (pos found : ℕ)
    → find_from (lit "password") result pos ≡ some found
    → (pos ≤ found) × (found + 8 ≤ length result) × (get_elem? result found ≡ some b'p')
unfolding lit
password_at result pos found e =
    let (after, inside) = find_from-le (lit "password") result pos found e in
    (after, inside, find_from-get_elem? b'p' _ result pos found e)

filter_loop-ends :
    (fuel : ℕ) (result : Str) (pos : ℕ)
    → length result - pos < fuel
    → (r : Str) × (filter_loop fuel result pos ≡ some r)
unfolding filter_loop
filter_loop-ends zero result pos short = absurd (omega arith)
filter_loop-ends (suc fuel) result pos short =
    go (find_from (lit "password") result pos) (λ found e. (
      found_bounds found e,
      filter_loop-ends fuel (mask_at result found).0 (mask_at result found).1,
    ))
  where
    found_bounds :
        (found : ℕ)
        → find_from (lit "password") result pos ≡ some found
        → length (mask_at result found).0 - (mask_at result found).1 < fuel
    found_bounds found e =
        let (after, inside, begins) = password_at result pos found e in
        omega (arith, mask_at-shrinks result found begins inside)

    go :
        (o : Option ℕ)
        → ((found : ℕ)
            → o ≡ some found
            → (length (mask_at result found).0 - (mask_at result found).1 < fuel)
              × (length (mask_at result found).0 - (mask_at result found).1 < fuel
                  → (r : Str) × (filter_loop fuel (mask_at result found).0 (mask_at result found).1
                      ≡ some r)))
        → (r : Str) × (elim o as (λ _. Option Str) [
          | none ↦ some result
          | some found ↦ filter_loop fuel (mask_at result found).0 (mask_at result found).1
        ]
            ≡ some r)
    go none bounds = (result, refl)
    go (some found) bounds = (bounds found refl).1 (bounds found refl).0

-- For every message the loop of FilterSensitiveInfo ends by its test, within the fuel.
pub filter_sensitive_info-ends :
    (message : Str)
    → filter_loop (suc (length message)) message 0 ≡ some (filter_sensitive_info message)
unfolding filter_sensitive_info
filter_sensitive_info-ends message =
    go (filter_loop (suc (length message)) message 0)
      (filter_loop-ends (suc (length message)) message 0 (omega arith))
  where
    go :
        (o : Option Str)
        → (r : Str) × (o ≡ some r)
        → o ≡ some (elim o as (λ _. Str) [ none ↦ message | some result ↦ result ])
    go none (r, e) = absurd (cc e)
    go (some result) ends = refl
