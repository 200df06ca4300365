-- ===== src/Logger/Expiry.antt =====
-- Which files CleanExpiredLogs removes.
use mathlib.Core.List.{append-nil, append_assoc}
use mathlib.Core.Option
use lite_chat_server.Common.{
  Bool, KeysDistinct, List, Option, Str, [], ap, arith, false, find_from, find_from-index,
  if◌then◌else◌, index_of, inl, inr, lit, lookup, lookup-erase, none, not, refl, Option-cases, suc,
  some, starts_with, sym, true, zero, ℕ, ◌&&◌, ◌*◌, ◌++◌, ◌+◌, ◌<◌, ◌==◌, ◌∙◌, ◌∷◌, ◌≡◌, ◌≢◌, ◌≤◌,
  ◌⊎◌, nat_eq, str_beq_iff, str_eq,
}
use lite_chat_server.Logger.{
  LogFile, LogState, clean_each, clean_expired_logs, file_name, is_log_name, is_old,
}

module _ (days : ℕ) (s : LogState) where
  -- the test of the loop
  abbrev is_expired : Str → LogFile → Bool
  is_expired name file = is_log_name name && is_old days s.now file && not (s.is_fixed name)

  clean_each-removes :
      (name : Str) (file : LogFile) (entries : List (Str × LogFile))
      → lookup name entries ≡ some file
      → is_expired name file ≡ true
      → lookup name (clean_each days s entries) ≡ none
  unfolding clean_each lookup
  clean_each-removes name file [] here old = absurd (cc here)
  clean_each-removes name file ((other, f) ∷ entries) here old = ground (
    arith,
    str_beq_iff other name,
    lookup-erase other name (clean_each days s entries),
    clean_each-removes name file entries,
    ap (λ n. is_expired n f),
  )

  clean_each-absent :
      (name : Str) (entries : List (Str × LogFile))
      → lookup name entries ≡ none
      → lookup name (clean_each days s entries) ≡ lookup name s.files
  unfolding clean_each lookup
  clean_each-absent name [] absent = refl
  clean_each-absent name ((other, f) ∷ entries) absent = ground (
    arith,
    str_beq_iff other name,
    lookup-erase other name (clean_each days s entries),
    clean_each-absent name entries,
  )

  clean_each-keeps :
      (name : Str) (file : LogFile) (entries : List (Str × LogFile))
      → KeysDistinct entries
      → lookup name entries ≡ some file
      → is_expired name file ≡ false
      → lookup name (clean_each days s entries) ≡ lookup name s.files
  unfolding clean_each lookup
  clean_each-keeps name file [] distinct here young = absurd (cc here)
  clean_each-keeps name file ((other, f) ∷ entries) (gone, distinct) here young = ground (
    arith,
    str_beq_iff other name,
    lookup-erase other name (clean_each days s entries),
    clean_each-absent name entries,
    clean_each-keeps name file entries distinct,
    ap (λ n. is_expired n f),
    ap (λ n. lookup n entries),
  )

starts_with_self : (pattern s : Str) → starts_with pattern (pattern ++ s) ≡ true
starts_with_self [] s = refl
starts_with_self (c ∷ pattern) s = ground (arith, starts_with_self pattern s)

-- What ends with a pattern has it somewhere.
index_of-suffix :
    (c : ℕ) (pattern before : Str) → index_of (c ∷ pattern) (before ++ c ∷ pattern) ≢ none
unfolding index_of
index_of-suffix c pattern [] = ground (arith, starts_with_self pattern [], append-nil pattern)
index_of-suffix c pattern (x ∷ before) = ground (arith, index_of-suffix c pattern before)

index_of-zero :
    (c : ℕ) (pattern s : Str)
    → index_of (c ∷ pattern) s ≡ some 0
    → starts_with (c ∷ pattern) s ≡ true
unfolding index_of
index_of-zero c pattern [] e = absurd (cc e)
index_of-zero c pattern (x ∷ s) e = ground arith

find_from-begin :
    (rest : Str) → find_from (lit "server_log_") (lit "server_log_" ++ rest) 0 ≡ some 0
unfolding lit index_of
find_from-begin rest = find_from-index _ _ (lit "server_log_" ++ rest) 0

begin_only :
    (name : Str)
    → find_from (lit "server_log_") name 0 ≡ some 0
    → starts_with (lit "server_log_") name ≡ true
unfolding lit
begin_only name e =
    index_of-zero _ _ name
      (at_zero (index_of (lit "server_log_") name) (sym (find_from-index _ _ name 0) ∙ e))
  where
    at_zero : (o : Option ℕ) → Option.map (λ i. 0 + i) o ≡ some 0 → o ≡ some 0
    at_zero none e = cc e
    at_zero (some i) e = ground (arith, e)

has_suffix : (date : Str) → find_from (lit ".txt") (file_name date) 0 ≢ none
unfolding lit
has_suffix date e = index_of-suffix _ _ (lit "server_log_" ++ date) (
    ap (λ s. index_of (lit ".txt") s) (append_assoc (lit "server_log_") date (lit ".txt"))
    ∙ absent (index_of (lit ".txt") (file_name date))
        (sym (find_from-index _ _ (file_name date) 0) ∙ e))
  where
    absent : (o : Option ℕ) → Option.map (λ i. 0 + i) o ≡ none → o ≡ none
    absent none e = refl
    absent (some i) e = cc e

-- A file that the logger has named is a log file, and one whose name begins otherwise is none.
is_log_name-file_name : (date : Str) → is_log_name (file_name date) ≡ true
unfolding is_log_name
is_log_name-file_name date =
    let begins : find_from (lit "server_log_") (file_name date) 0 ≡ some 0 =
      find_from-begin (date ++ lit ".txt") in
    elim (Option-cases (find_from (lit ".txt") (file_name date) 0)) [
      | inl absent ↦ absurd (has_suffix date absent)
      | inr (i, there) ↦ ground (arith, begins, there)
    ]

is_log_name-other :
    (name : Str) → starts_with (lit "server_log_") name ≡ false → is_log_name name ≡ false
unfolding is_log_name
is_log_name-other name other = go (find_from (lit "server_log_") name 0) (begin_only name)
  where
    go :
        (o : Option ℕ)
        → (o ≡ some 0 → starts_with (lit "server_log_") name ≡ true)
        → elim o as (λ _. Bool) [
          | none ↦ false
          | some at ↦
              at == 0 && (elim (find_from (lit ".txt") name 0) [ none ↦ false | some i ↦ true ])
        ]
          ≡ false
    go none begins = refl
    go (some zero) begins = absurd (cc (begins refl, other))
    go (some (suc i)) begins = ground arith

-- The files behind CleanExpiredLogs with the directory there.
cleaned :
    (days : ℕ) (s : LogState) (name : Str)
    → s.directory ≡ true
    → lookup name (clean_expired_logs days s).files ≡ lookup name (clean_each days s s.files)
unfolding clean_expired_logs
cleaned days s name directory = go s.directory directory
  where
    go :
        (b : Bool)
        → b ≡ true
        → lookup name
            (if b
              then record s {
                logger = record s.logger { log_retention_days = days };
                files = clean_each days s s.files;
              }
              else record s { logger = record s.logger { log_retention_days = days } }).files
          ≡ lookup name (clean_each days s s.files)
    go true e = refl
    go false e = absurd (cc e)

-- CleanExpiredLogs removes every file of the directory that the logger has named after a date and that
-- was last written longer ago than the days to keep, if it can be unlinked.
pub clean_expired_logs-removes :
    (days : ℕ) (s : LogState) (date : Str) (file : LogFile)
    → s.directory ≡ true
    → lookup (file_name date) s.files ≡ some file
    → file.modified + days * 86400 < s.now
    → s.is_fixed (file_name date) ≡ false
    → lookup (file_name date) (clean_expired_logs days s).files ≡ none
clean_expired_logs-removes days s date file directory here old free =
    cleaned days s (file_name date) directory
    ∙ clean_each-removes days s (file_name date) file s.files here
        (ground (arith, is_log_name-file_name date))

not_expired :
    (days : ℕ) (s : LogState) (name : Str) (file : LogFile)
    → (starts_with (lit "server_log_") name ≡ false) ⊎ (s.now ≤ file.modified + days * 86400)
    → is_expired days s name file ≡ false
not_expired days s name file (inl other) = rw (is_log_name-other name other) refl
not_expired days s name file (inr young) = ground arith

-- CleanExpiredLogs leaves every file as it is whose name does not begin with "server_log_", or which
-- was last written within the days to keep. No two files have one name.
pub clean_expired_logs-keeps :
    (days : ℕ) (s : LogState) (name : Str) (file : LogFile)
    → KeysDistinct s.files
    → lookup name s.files ≡ some file
    → (starts_with (lit "server_log_") name ≡ false) ⊎ (s.now ≤ file.modified + days * 86400)
    → lookup name (clean_expired_logs days s).files ≡ some file
unfolding clean_expired_logs
clean_expired_logs-keeps days s name file distinct here reason = go s.directory
  where
    kept : lookup name (clean_each days s s.files) ≡ some file
    kept =
        clean_each-keeps days s name file s.files distinct here
          (not_expired days s name file reason)
        ∙ here

    go :
        (b : Bool)
        → lookup name
            (if b
              then record s {
                logger = record s.logger { log_retention_days = days };
                files = clean_each days s s.files;
              }
              else record s { logger = record s.logger { log_retention_days = days } }).files
          ≡ some file
    go true = kept
    go false = here
