-- ===== src/Logger/Rotation.antt =====
-- Which file RotateLogFile opens on one day.
use mathlib.Core.List.{append-nil, append_assoc}
use lite_chat_server.Common.{
  All, Bool, List, Str, [], ap, false, if◌then◌else◌, leb, lookup, lookup-modify_self, refl, some,
  subst, sym, true, ℕ, ◌&&◌, ◌++◌, ◌∙◌, ◌∷◌, ◌≡◌, str_eq,
}
use lite_chat_server.Logger.{
  LocalTime, LogLevel, LogState, accepted, append_bytes, written_later, append_entry, file_name,
  file_path, log_entry, opens, reopen, rotate_if_full, rotate_log_file, write_log,
}
use lite_chat_server.Logger.Appending.{lookup-touch, write_log-open}

-- A call of WriteLog, and when it is made.
pub record Call : Type 0 where
  pub at : ℕ
  pub level : LogLevel
  pub module_name : Str
  pub message : Str
  pub client_ip : Str

-- The file of that day is open and has the content, and nothing will fail.
pub record IsOpen (name : Str) (content : Str) (s : LogState) : Type 0 where
  pub opened : s.logger.log_file ≡ some name
  pub modified : ℕ
  pub holds : lookup name s.files ≡ some (record { content = content; modified = modified })
  pub directory : s.directory ≡ true
  pub opening : s.open_results ≡ []
  pub writing : s.write_results ≡ []

module _ ⦃local : LocalTime⦄ where
  abbrev pub write_call : Call → LogState → LogState
  write_call call s =
      write_log call.level call.module_name call.message call.client_ip (record s { now = call.at })

  pub write_each : List Call → LogState → LogState
  write_each [] s = s
  write_each (call ∷ calls) s = write_each calls (write_call call s)

  -- The line that a call writes; of the state it needs the time only.
  abbrev pub line_of : LogState → Call → Str
  line_of s call =
      log_entry call.level call.module_name call.message call.client_ip (record s { now = call.at })

  abbrev pub lines_of : LogState → List Call → Str
  lines_of s [] = []
  lines_of s (call ∷ calls) = line_of s call ++ lines_of s calls

  rotate_log_file-IsOpen :
      (date content : Str) (s : LogState)
      → local.date_text s.now ≡ date
      → IsOpen (file_name date) content s
      → IsOpen (file_name date) content (rotate_log_file s)
  unfolding rotate_log_file opens
  rotate_log_file-IsOpen date content s today o =
      subst
        (λ r. IsOpen (file_name date) content (
          reopen (file_name (local.date_text s.now))
            (file_path s.logger.log_dir (local.date_text s.now)) r))
        (sym opens_again)
        (subst
          (λ d.
            IsOpen (file_name date) content
              (reopen (file_name d) (file_path s.logger.log_dir d) (true, s)))
          (sym today)
          (record {
            opened = refl;
            modified = o.modified;
            holds = lookup-touch (file_name date) (file_name date) s.now s.files _ o.holds;
            directory = o.directory;
            opening = o.opening;
            writing = o.writing;
          }))
    where
      opens_again :
          elim s.open_results as (λ _. Bool × LogState) [
            | [] ↦ (s.directory, s)
            | ok ∷ later ↦ (ok && s.directory, record s { open_results = later })
          ]
          ≡ (true, s)
      opens_again =
          ap
            (λ (r : List Bool). elim r as (λ _. Bool × LogState) [
              | [] ↦ (s.directory, s)
              | ok ∷ later ↦ (ok && s.directory, record s { open_results = later })
            ])
            o.opening
          ∙ ap (λ b. (b, s)) o.directory

  append_entry-IsOpen :
      (name content entry : Str) (s : LogState)
      → IsOpen name content s
      → IsOpen name (content ++ entry) (append_entry name entry s)
  unfolding append_entry
  append_entry-IsOpen name content entry s o =
      let whole : accepted s.write_results entry ≡ entry = ap (λ r. accepted r entry) o.writing in
      record {
        opened = o.opened;
        modified = s.now;
        holds =
            lookup-modify_self name (append_bytes s.now (accepted s.write_results entry)) s.files _
              o.holds
            ∙ ap (λ bytes. some (record { content = content ++ bytes; modified = s.now })) whole;
        directory = o.directory;
        opening = o.opening;
        writing = ap written_later o.writing;
      }

  rotate_if_full-IsOpen :
      (date content : Str) (s : LogState)
      → local.date_text s.now ≡ date
      → IsOpen (file_name date) content s
      → IsOpen (file_name date) content (rotate_if_full s)
  unfolding rotate_if_full
  rotate_if_full-IsOpen date content s today o =
      elim (leb s.logger.max_log_size s.logger.current_log_size)
        as (λ b. IsOpen (file_name date) content (if b then rotate_log_file s else s)) [
          | true ↦ rotate_log_file-IsOpen date content s today o
          | false ↦ o
        ]

  write_call-IsOpen :
      (date content : Str) (call : Call) (s : LogState)
      → local.date_text call.at ≡ date
      → IsOpen (file_name date) content s
      → IsOpen (file_name date) (content ++ line_of s call) (write_call call s)
  write_call-IsOpen date content call s today o =
      let later : LogState = record s { now = call.at } in
      let o' : IsOpen (file_name date) content later = record {
        opened = o.opened;
        modified = o.modified;
        holds = o.holds;
        directory = o.directory;
        opening = o.opening;
        writing = o.writing;
      } in
      let name = file_name date in
      subst (IsOpen name (content ++ line_of s call))
        (sym (
          write_log-open call.level call.module_name call.message call.client_ip name later
            o.opened))
        (rotate_if_full-IsOpen date (content ++ line_of s call)
          (append_entry name (line_of s call) later) (same_time name (line_of s call) later ∙ today)
          (append_entry-IsOpen name content (line_of s call) later o'))
    where
      same_time :
          (name entry : Str) (s : LogState)
          → local.date_text (append_entry name entry s).now ≡ local.date_text s.now
      same_time name entry s = unfold append_entry in refl

  line_of-same : (s s' : LogState) (call : Call) → line_of s call ≡ line_of s' call
  unfolding log_entry
  line_of-same s s' call = refl

  lines_of-same : (s s' : LogState) (calls : List Call) → lines_of s calls ≡ lines_of s' calls
  lines_of-same s s' [] = refl
  lines_of-same s s' (call ∷ calls) = rw (line_of-same s s' call, lines_of-same s s' calls) refl

  -- With the file of a day open, and as long as fopen() and fwrite() do not fail, all calls of WriteLog
  -- on that day append their lines in order to that one file, which stays open, whatever the limit
  -- `max_log_size` is: within a day the size of the file is not bounded by it.
  pub write_each-one_file :
      (date content : Str) (calls : List Call) (s : LogState)
      → All (λ (call : Call). local.date_text call.at ≡ date) calls
      → IsOpen (file_name date) content s
      → IsOpen (file_name date) (content ++ lines_of s calls) (write_each calls s)
  unfolding write_each
  write_each-one_file date content [] s today o =
      subst (λ c. IsOpen (file_name date) c s) (sym (append-nil content)) o
  write_each-one_file date content (call ∷ calls) s (now, today) o =
      subst (λ c. IsOpen (file_name date) c (write_each calls (write_call call s)))
        (append_assoc content (line_of s call) (lines_of (write_call call s) calls)
          ∙ ap (λ r. content ++ (line_of s call ++ r)) (lines_of-same (write_call call s) s calls))
        (write_each-one_file date (content ++ line_of s call) calls (write_call call s) today
          (write_call-IsOpen date content call s now o))
