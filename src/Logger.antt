-- ===== src/Logger.antt =====
-- system/server_logger.cpp: the logger, and the directory of its files. The mutex makes WriteLog one
-- step.
pub mod Filter
pub mod Appending
pub mod Tracking
pub mod Rotation
pub mod Expiry
use lite_chat_server.Common.{
  Bool, List, Option, Str, [], erase, false, find_from, if◌then◌else◌, insert, is_empty, leb,
  length, lit, lookup, ltb, modify, none, not, some, take, true, ℕ, ◌&&◌, ◌*◌, ◌++◌, ◌+◌, ◌-◌, ◌==◌,
  ◌||◌, ◌∷◌, nat_eq, str_eq,
}
use lite_chat_server.Logger.Filter.{filter_sensitive_info}

pub data LogLevel : Type 0 where
  debug info warning error : LogLevel

-- What the operating system is asked for, beside the files: localtime() and strftime() with the
-- formats "%Y-%m-%d" and "%Y-%m-%d %H:%M:%S".
pub record LocalTime : Type 0 where
  pub date_text : ℕ → Str
  pub timestamp_text : ℕ → Str

pub record ServerLogger : Type 0 where
  pub log_file_path : Str
  -- `none` is nullptr; otherwise the name of the open file in the log directory
  pub log_file : Option Str
  pub max_log_size : ℕ
  pub current_log_size : ℕ
  pub log_retention_days : ℕ
  pub log_dir : Str

pub record LogFile : Type 0 where
  pub content : Str
  -- st_mtime
  pub modified : ℕ

-- The logger and what it works on. The outside decides whether the calls of fopen() succeed and how
-- many bytes fwrite() takes, call by call; a list that has run out stands for full success. It also
-- decides whether mkdir() succeeds, and which files cannot be unlinked.
pub record LogState : Type 0 where
  pub logger : ServerLogger
  pub directory : Bool
  pub files : List (Str × LogFile)
  pub now : ℕ
  pub can_make : Bool
  pub is_fixed : Str → Bool
  pub open_results : List Bool
  pub write_results : List ℕ

-- ServerLogger()
abbrev pub new_logger : ServerLogger
new_logger = record {
  log_file_path = [];
  log_file = none;
  max_log_size = 10 * 1024 * 1024;
  current_log_size = 0;
  log_retention_days = 90;
  log_dir = [];
}

abbrev pub level_text : LogLevel → Str
level_text debug = lit "DEBUG"
level_text info = lit "INFO"
level_text warning = lit "WARNING"
level_text error = lit "ERROR"

-- The name of a file within the directory, and its path.
abbrev pub file_name : Str → Str
file_name date = lit "server_log_" ++ (date ++ lit ".txt")

abbrev pub file_path : Str → Str → Str
file_path dir date = dir ++ (lit "/server_log_" ++ (date ++ lit ".txt"))

abbrev pub set_file : Option Str → ℕ → Str → LogState → LogState
set_file file size path s = record s {
  logger = record s.logger { log_file = file; current_log_size = size; log_file_path = path };
}

-- fopen(path, "a") creates a file that is not there.
abbrev pub touch : Str → ℕ → List (Str × LogFile) → List (Str × LogFile)
touch name now files = elim (lookup name files) [
  | none ↦ insert name (record { content = []; modified = now }) files
  | some file ↦ files
]

abbrev pub size_of : Str → List (Str × LogFile) → ℕ
size_of name files = elim (lookup name files) [ none ↦ 0 | some file ↦ length file.content ]

-- The outcome of fopen(), which needs the directory.
unfoldable pub opens : LogState → Bool × LogState
opens s = elim s.open_results [
  | [] ↦ (s.directory, s)
  | ok ∷ later ↦ (ok && s.directory, record s { open_results = later })
]

-- fopen(), then ftell() at the end of the file
abbrev pub reopen : Str → Str → Bool × LogState → LogState
reopen name path (true, s) =
    let files = touch name s.now s.files in
    set_file (some name) (size_of name files) path (record s { files = files })
reopen name path (false, s) = set_file none 0 path s

-- The bytes that fwrite() takes go to the end of the open file.
abbrev pub append_bytes : ℕ → Str → LogFile → LogFile
append_bytes now bytes file = record { content = file.content ++ bytes; modified = now }

-- fwrite(): the bytes that are written
abbrev pub accepted : List ℕ → Str → Str
accepted [] entry = entry
accepted (n ∷ later) entry = take n entry

abbrev pub written_later : List ℕ → List ℕ
written_later [] = []
written_later (n ∷ later) = later

-- fwrite() to the open file, fflush(), and currentLogSize += written
unfoldable pub append_entry : Str → Str → LogState → LogState
append_entry name entry s =
    let bytes = accepted s.write_results entry in
    record s {
      files = modify name (append_bytes s.now bytes) s.files;
      write_results = written_later s.write_results;
      logger = record s.logger { current_log_size = s.logger.current_log_size + length bytes };
    }

-- `filename.find("server_log_") != 0 || filename.find(".txt") == npos` does not hold
unfoldable pub is_log_name : Str → Bool
is_log_name name = elim (find_from (lit "server_log_") name 0) [
  | none ↦ false
  | some at ↦ at == 0 && (elim (find_from (lit ".txt") name 0) [ none ↦ false | some i ↦ true ])
]

-- st_mtime < now - retentionDays * 86400
abbrev pub is_old : ℕ → ℕ → LogFile → Bool
is_old retention_days now file = ltb file.modified (now - retention_days * 86400)

unfoldable pub clean_each : ℕ → LogState → List (Str × LogFile) → List (Str × LogFile)
clean_each retention_days s [] = s.files
clean_each retention_days s ((name, file) ∷ entries) =
    let files = clean_each retention_days s entries in
    if is_log_name name && is_old retention_days s.now file && not (s.is_fixed name)
    then erase name files
    else files

-- CleanExpiredLogs: opendir() fails without the directory.
unfoldable pub clean_expired_logs : ℕ → LogState → LogState
clean_expired_logs retention_days s =
    let s' = record s { logger = record s.logger { log_retention_days = retention_days } } in
    if s.directory then record s' { files = clean_each retention_days s s.files } else s'

module _ ⦃local : LocalTime⦄ where
  abbrev pub get_timestamp : LogState → Str
  get_timestamp s = local.timestamp_text s.now

  unfoldable pub rotate_log_file : LogState → LogState
  rotate_log_file s =
      let date = local.date_text s.now in
      reopen (file_name date) (file_path s.logger.log_dir date) (opens s)

  -- The line of WriteLog.
  unfoldable pub log_entry : LogLevel → Str → Str → Str → LogState → Str
  log_entry level module_name message client_ip s =
      lit "["
      ++ (get_timestamp s
          ++ (lit "] ["
              ++ (level_text level
                  ++ (lit "] ["
                      ++ (module_name
                          ++ (lit "]"
                              ++ ((if is_empty client_ip
                                    then []
                                    else lit " [" ++ (client_ip ++ lit "]"))
                                  ++ (lit " " ++ (filter_sensitive_info message ++ lit "\n")))))))))

  -- behind fflush()
  unfoldable pub rotate_if_full : LogState → LogState
  rotate_if_full s =
      if leb s.logger.max_log_size s.logger.current_log_size then rotate_log_file s else s

  unfoldable pub write_log : LogLevel → Str → Str → Str → LogState → LogState
  write_log level module_name message client_ip s = elim s.logger.log_file [
    | none ↦ s
    | some name ↦
        rotate_if_full (append_entry name (log_entry level module_name message client_ip s) s)
  ]

  -- InitLogger: stat() and mkdir(), then the two steps.
  unfoldable pub init_logger : Str → LogState → LogState
  init_logger log_dir s =
      let s' = record s {
        logger = record s.logger { log_dir = log_dir };
        directory = s.directory || s.can_make;
      } in
      let rotated = rotate_log_file s' in
      clean_expired_logs rotated.logger.log_retention_days rotated
