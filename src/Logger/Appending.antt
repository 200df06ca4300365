-- ===== src/Logger/Appending.antt =====
-- What a call of WriteLog does to the files.
use lite_chat_server.Common.{
  Bool, List, Option, Str, [], ap, arith, false, take, if◌then◌else◌, leb, lookup, lookup-insert,
  lookup-modify_ne, lookup-modify_self, none, refl, some, subst, sym, true, ◌&&◌, ℕ, ◌++◌, ◌∙◌, ◌∷◌,
  ◌≡◌, ◌≢◌, nat_eq, str_eq, str_beq_iff,
}
use lite_chat_server.Logger.{
  LocalTime, LogFile, LogLevel, LogState, accepted, append_bytes, append_entry, log_entry, opens,
  reopen, rotate_if_full, rotate_log_file, touch, write_log,
}

-- Opening a file loses none and changes none.
pub lookup-touch :
    (name other : Str) (now : ℕ) (files : List (Str × LogFile)) (file : LogFile)
    → lookup other files ≡ some file
    → lookup other (touch name now files) ≡ some file
lookup-touch name other now files file e = ground (
  arith,
  lookup-insert name other (record { content = []; modified = now }) files,
  str_beq_iff name other,
)

reopen-keeps :
    (name path other : Str) (r : Bool × LogState) (file : LogFile)
    → lookup other r.1.files ≡ some file
    → lookup other (reopen name path r).files ≡ some file
reopen-keeps name path other (true, s) file e = lookup-touch name other s.now s.files file e
reopen-keeps name path other (false, s) file e = e

opens-files : (s : LogState) → (opens s).1.files ≡ s.files
unfolding opens
opens-files s =
    elim s.open_results
      as (λ (r : List Bool).
        (elim r as (λ _. Bool × LogState) [
          | [] ↦ (s.directory, s)
          | ok ∷ later ↦ (ok && s.directory, record s { open_results = later })
        ]).1.files
        ≡ s.files) [ [] ↦ refl | ok ∷ later ↦ refl ]

-- What fwrite() takes of an entry, if `results` is what its calls take at most: the whole when nothing
-- limits it.
abbrev pub taken : List ℕ → Str → Str
taken [] entry = entry
taken (n ∷ later) entry = take n entry

accepted-taken : (results : List ℕ) (entry : Str) → accepted results entry ≡ taken results entry
accepted-taken [] entry = refl
accepted-taken (n ∷ later) entry = refl

module _ ⦃local : LocalTime⦄ where
  pub rotate_log_file-keeps :
      (other : Str) (s : LogState) (file : LogFile)
      → lookup other s.files ≡ some file
      → lookup other (rotate_log_file s).files ≡ some file
  unfolding rotate_log_file
  rotate_log_file-keeps other s file e =
      reopen-keeps _ _ other (opens s) file (ap (lookup other) (opens-files s) ∙ e)

  rotate_if_full-keeps :
      (other : Str) (s : LogState) (file : LogFile)
      → lookup other s.files ≡ some file
      → lookup other (rotate_if_full s).files ≡ some file
  unfolding rotate_if_full
  rotate_if_full-keeps other s file e =
      elim (leb s.logger.max_log_size s.logger.current_log_size)
        as (λ b. lookup other (if b then rotate_log_file s else s).files ≡ some file) [
          | true ↦ rotate_log_file-keeps other s file e
          | false ↦ e
        ]

  -- From `s` to `s'` the entry, or as much of it as fwrite() takes, was appended to the file of that
  -- name, and every other file is as it was.
  pub record Appended (name entry : Str) (file : LogFile) (s s' : LogState) : Type 0 where
    pub appended :
        lookup name s'.files
        ≡ some (record { content = file.content ++ taken s.write_results entry; modified = s.now })
    pub others :
        (other : Str) (f : LogFile)
        → other ≢ name
        → lookup other s.files ≡ some f
        → lookup other s'.files ≡ some f

  pub write_log-open :
      (level : LogLevel) (module_name message client_ip name : Str) (s : LogState)
      → s.logger.log_file ≡ some name
      → write_log level module_name message client_ip s
        ≡ rotate_if_full (append_entry name (log_entry level module_name message client_ip s) s)
  unfolding write_log
  write_log-open level module_name message client_ip name s opened =
      ap
        (λ (o : Option Str). elim o as (λ _. LogState) [
          | none ↦ s
          | some name ↦
              rotate_if_full (append_entry name (log_entry level module_name message client_ip s) s)
        ])
        opened

  -- WriteLog with an open file that is there appends one line to it, the whole line if nothing limits
  -- fwrite() and otherwise the first bytes of it, as many as fwrite() takes; it changes no other file
  -- that is there, also if it rotates afterwards.
  pub write_log-Appended :
      (level : LogLevel) (module_name message client_ip name : Str) (file : LogFile) (s : LogState)
      → s.logger.log_file ≡ some name
      → lookup name s.files ≡ some file
      → Appended name
          (log_entry level module_name message client_ip s)
          file
          s
          (write_log level module_name message client_ip s)
  unfolding append_entry
  write_log-Appended level module_name message client_ip name file s opened here =
      let entry = log_entry level module_name message client_ip s in
      let bytes = accepted s.write_results entry in
      let grown : Str → Option LogFile =
        λ part. some (record { content = file.content ++ part; modified = s.now }) in
      let bytes_taken = accepted-taken s.write_results entry in
      subst (Appended name entry file s)
        (sym (write_log-open level module_name message client_ip name s opened))
        (record {
          appended =
              rotate_if_full-keeps name (append_entry name entry s) _
                (lookup-modify_self name (append_bytes s.now bytes) s.files file here)
              ∙ ap grown bytes_taken;
          others = λ other f ne there. rotate_if_full-keeps other (append_entry name entry s) f (
              lookup-modify_ne name other (append_bytes s.now bytes) s.files (λ e. ne (sym e))
              ∙ there);
        })
