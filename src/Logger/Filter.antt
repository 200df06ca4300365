-- ===== src/Logger/Filter.antt =====
-- FilterSensitiveInfo of system/server_logger.cpp: a loop over positions of a string that it changes.
pub mod Ending
pub mod Field
pub mod Masking
use lite_chat_server.Common.{
  Bool, Option, Str, [], false, find_from, get_elem?, if◌then◌else◌, length, lit, ltb, none, refl,
  replace, some, suc, true, zero, ℕ, ◌&&◌, ◌+◌, ◌-◌, ◌==◌, ◌∷◌, ◌≡◌, nat_eq,
}

-- result[pos] == '"', for a position inside the string
abbrev quote_at : Str → ℕ → Bool
quote_at result pos = elim (get_elem? result pos) [ none ↦ false | some c ↦ c == b'"' ]

-- Where the value starts and ends behind the colon: in quotes, directly behind it.
unfoldable pub quoted_value : Str → ℕ → Option (ℕ × ℕ)
quoted_value result colon =
    if ltb (colon + 1) (length result) && quote_at result (colon + 1)
    then elim (find_from (b'"' ∷ []) result (colon + 2)) [
      | none ↦ none
      | some value_end ↦ some (colon + 2, value_end)
    ]
    else none

-- The value of the "password" at `pos`.
unfoldable pub value_of : Str → ℕ → Option (ℕ × ℕ)
value_of result pos = elim (find_from (b':' ∷ []) result pos) [
  | none ↦ none
  | some colon ↦ quoted_value result colon
]

-- The body of the loop, with "password" at `pos`: the new string, and where the search goes on.
unfoldable pub mask_at : Str → ℕ → Str × ℕ
mask_at result pos = elim (value_of result pos) [
  | none ↦ (result, pos + 1)
  | some (value_start, value_end) ↦
      (replace result value_start (value_end - value_start) (lit "***"), value_end + 1)
]

-- `while((pos = result.find("password", pos)) != npos)`; `none` when the fuel has run out.
unfoldable pub filter_loop : ℕ → Str → ℕ → Option Str
filter_loop zero result pos = none
filter_loop (suc fuel) result pos = elim (find_from (lit "password") result pos) [
  | none ↦ some result
  | some found ↦ filter_loop fuel (mask_at result found).0 (mask_at result found).1
]

-- One unit of fuel for each byte, and one more.
unfoldable pub filter_sensitive_info : Str → Str
filter_sensitive_info message = elim (filter_loop (suc (length message)) message 0) [
  | none ↦ message
  | some result ↦ result
]
