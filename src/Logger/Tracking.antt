-- ===== src/Logger/Tracking.antt =====
-- The size that the logger counts, against that of its file.
use lite_chat_server.Common.{
  Bool, List, Option, Str, [], ap, arith, erase, false, if◌then◌else◌, inl, inr, leb, length,
  length-append, lookup, lookup-erase, modify_inv, none, refl, some, sym, true, ℕ, ◌&&◌, ◌++◌, ◌∙◌,
  ◌∷◌, ◌≡◌, str_eq, not, subst,
}
use lite_chat_server.Logger.{
  LocalTime, LogFile, LogLevel, LogState, accepted, append_bytes, append_entry, clean_each,
  clean_expired_logs, init_logger, is_log_name, is_old, log_entry, new_logger, opens, reopen,
  rotate_if_full, rotate_log_file, size_of, touch, write_log,
}

pub record IsTracked (s : LogState) : Type 0 where
  pub tracked :
      (name : Str) (file : LogFile)
      → s.logger.log_file ≡ some name
      → lookup name s.files ≡ some file
      → s.logger.current_log_size ≡ length file.content

reopen-IsTracked : (name path : Str) (r : Bool × LogState) → IsTracked (reopen name path r)
reopen-IsTracked name path (true, s) = record {
  tracked = λ opened file e there.
      let files = touch name s.now s.files in
      sized files file (subst (λ n. lookup n files ≡ some file) (sym (cc e)) there);
}
  where
    sized :
        (files : List (Str × LogFile)) (file : LogFile)
        → lookup name files ≡ some file
        → size_of name files ≡ length file.content
    sized files file e =
        ap
          (λ (o : Option LogFile). elim o as (λ _. ℕ) [
            | none ↦ 0
            | some file ↦ length file.content
          ])
          e
reopen-IsTracked name path (false, s) = record { tracked = λ opened file e there. absurd (cc e) }

append_entry-IsTracked :
    (name entry : Str) (s : LogState)
    → s.logger.log_file ≡ some name
    → IsTracked s
    → IsTracked (append_entry name entry s)
unfolding append_entry
append_entry-IsTracked name entry s opened t = record {
  tracked = λ other file e there.
      let bytes = accepted s.write_results entry in
      let same : name ≡ other = cc (opened, e) in
      elim (modify_inv name other (append_bytes s.now bytes) s.files file there) [
        | inl (_, (old, before, after)) ↦
            let size : length file.content ≡ length (old.content ++ bytes) =
              ap (λ (f : LogFile). length f.content) after in
            omega (arith, size, t.tracked other old e before, length-append old.content bytes)
        | inr (ne, _) ↦ absurd (ne same)
      ];
}

clean_each-kept :
    (days : ℕ) (s : LogState) (entries : List (Str × LogFile)) (name : Str) (file : LogFile)
    → lookup name (clean_each days s entries) ≡ some file
    → lookup name s.files ≡ some file
unfolding clean_each
clean_each-kept days s [] name file e = e
clean_each-kept days s ((other, old) ∷ entries) name file e =
    go (is_log_name other && is_old days s.now old && not (s.is_fixed other))
      (clean_each-kept days s entries name file) e
  where
    go :
        (b : Bool)
        → (lookup name (clean_each days s entries) ≡ some file → lookup name s.files ≡ some file)
        → lookup name
            (if b then erase other (clean_each days s entries) else clean_each days s entries)
          ≡ some file
        → lookup name s.files ≡ some file
    go true kept e = kept (ground (arith, lookup-erase other name (clean_each days s entries)))
    go false kept e = kept e

module _ ⦃local : LocalTime⦄ where
  rotate_log_file-IsTracked : (s : LogState) → IsTracked (rotate_log_file s)
  unfolding rotate_log_file
  rotate_log_file-IsTracked s = reopen-IsTracked _ _ (opens s)

  rotate_if_full-IsTracked : (s : LogState) → IsTracked s → IsTracked (rotate_if_full s)
  unfolding rotate_if_full
  rotate_if_full-IsTracked s t =
      elim (leb s.logger.max_log_size s.logger.current_log_size)
        as (λ b. IsTracked (if b then rotate_log_file s else s)) [
          | true ↦ rotate_log_file-IsTracked s
          | false ↦ t
        ]

  write_log-IsTracked :
      (level : LogLevel) (module_name message client_ip : Str) (s : LogState)
      → IsTracked s
      → IsTracked (write_log level module_name message client_ip s)
  unfolding write_log
  write_log-IsTracked level module_name message client_ip s t = go s.logger.log_file refl
    where
      go :
          (o : Option Str)
          → s.logger.log_file ≡ o
          → IsTracked (elim o as (λ _. LogState) [
            | none ↦ s
            | some name ↦
                rotate_if_full
                  (append_entry name (log_entry level module_name message client_ip s) s)
          ])
      go none e = t
      go (some name) e =
          let entry = log_entry level module_name message client_ip s in
          rotate_if_full-IsTracked (append_entry name entry s)
            (append_entry-IsTracked name entry s e t)

  clean_expired_logs-IsTracked :
      (days : ℕ) (s : LogState) → IsTracked s → IsTracked (clean_expired_logs days s)
  unfolding clean_expired_logs
  clean_expired_logs-IsTracked days s t = go s.directory
    where
      go :
          (b : Bool)
          → IsTracked (
              if b
              then record s {
                logger = record s.logger { log_retention_days = days };
                files = clean_each days s s.files;
              }
              else record s { logger = record s.logger { log_retention_days = days } })
      go true = record {
        tracked = λ name file e there.
            t.tracked name file e (clean_each-kept days s s.files name file there);
      }
      go false = record { tracked = t.tracked }

  init_logger-IsTracked : (dir : Str) (s : LogState) → IsTracked (init_logger dir s)
  unfolding init_logger
  init_logger-IsTracked dir s = clean_expired_logs-IsTracked _ _ (rotate_log_file-IsTracked _)

  -- What happens to the logger: it is initialised, writes, or something outside changes.
  pub data LogStep (s : LogState) : LogState → Type 0 where
    initialises : (dir : Str) → LogStep s (init_logger dir s)
    cleans : (days : ℕ) → LogStep s (clean_expired_logs days s)
    writes :
        (level : LogLevel) (module_name message client_ip : Str)
        → LogStep s (write_log level module_name message client_ip s)
    outside :
        (now : ℕ) (can_make : Bool) (is_fixed : Str → Bool) (open_results : List Bool)
        (write_results : List ℕ)
        → LogStep s (record s {
          now = now;
          can_make = can_make;
          is_fixed = is_fixed;
          open_results = open_results;
          write_results = write_results;
        })

  pub data LogReach (s : LogState) : LogState → Type 0 where
    idle : LogReach s s
    then_step : {t u : LogState} → LogReach s t → LogStep t u → LogReach s u

  LogStep-IsTracked : {s u : LogState} → LogStep s u → IsTracked s → IsTracked u
  LogStep-IsTracked {s} (initialises dir) t = init_logger-IsTracked dir s
  LogStep-IsTracked {s} (cleans days) t = clean_expired_logs-IsTracked days s t
  LogStep-IsTracked {s} (writes level module_name message client_ip) t =
      write_log-IsTracked level module_name message client_ip s t
  LogStep-IsTracked (outside now can_make is_fixed open_results write_results) t = record {
    tracked = t.tracked;
  }

  LogReach-IsTracked : {s u : LogState} → LogReach s u → IsTracked s → IsTracked u
  LogReach-IsTracked idle t = t
  LogReach-IsTracked (then_step r st) t = LogStep-IsTracked st (LogReach-IsTracked r t)

  -- From the state behind the constructor on, whatever fopen() and fwrite() do, `current_log_size` is
  -- the size of the open file as long as it is there: initialising, writing, rotating and cleaning
  -- keep it so.
  pub log_size_known : (s u : LogState) → s.logger ≡ new_logger → LogReach s u → IsTracked u
  log_size_known s u fresh r = LogReach-IsTracked r (record {
    tracked = λ name file e there. absurd (none_open name (ap (λ l. l.log_file) (sym fresh) ∙ e));
  })
    where
      none_open : (name : Str) → none ≡ some name → ⊥
      none_open name e = cc e
