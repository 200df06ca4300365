-- ===== src/Tests/Logging.antt =====
-- Runs of the logger, and its theorems at concrete inputs.
use lite_chat_server.Common.{
  find_from, Lacks, List, Str, [], arith, false, if◌then◌else◌, index_of, lit, lookup, nat_eq, none,
  refl, some, str_eq, true, ℕ, ◌++◌, ◌==◌, ◌∷◌, ◌≡◌,
}
use lite_chat_server.Logger.{
  LocalTime, LogFile, LogState, clean_expired_logs, file_name, init_logger, log_entry, new_logger,
  info, warning, write_log,
}
use lite_chat_server.Logger.Filter.{
  mask_at, quoted_value, value_of, filter_loop, filter_sensitive_info,
}
use lite_chat_server.Logger.Filter.Ending.{filter_sensitive_info-ends}
use lite_chat_server.Logger.Filter.Field.{with_field}
use lite_chat_server.Logger.Filter.Masking.{filter-masks, filter-skips}
use lite_chat_server.Logger.Appending.{Appended, write_log-Appended}
use lite_chat_server.Logger.Tracking.{
  IsTracked, idle, initialises, log_size_known, then_step, writes,
}
use lite_chat_server.Logger.Rotation.{Call, IsOpen, lines_of, write_each, write_each-one_file}
use lite_chat_server.Logger.Expiry.{clean_expired_logs-removes}

-- A day of 100 seconds: the day as one digit.
abbrev day_of : ℕ → Str
day_of now = if now == 1000 then lit "2025-01-02" else lit "2025-01-01"

instance abbrev test_time : LocalTime
test_time = record { date_text = day_of; timestamp_text = λ now. day_of now ++ lit " 00:00:00" }

abbrev login_line : Str
login_line = lit "{\"password\":\"secret\"}"

-- The second of two values stays.
two_fields :
    filter_sensitive_info (lit "{\"password\":\"secret\",\"password\":\"open\"}")
    ≡ lit "{\"password\":\"***\",\"password\":\"open\"}"
unfolding filter_sensitive_info filter_loop mask_at value_of quoted_value find_from lit
two_fields = refl

filter_sensitive_info-ends_example :
    filter_loop 22 login_line 0 ≡ some (filter_sensitive_info login_line)
unfolding lit
filter_sensitive_info-ends_example = filter_sensitive_info-ends login_line

secret-Lacks : Lacks 34 (lit "secret")
unfolding lit
secret-Lacks =
    ((λ e. cc e), ((λ e. cc e), ((λ e. cc e), ((λ e. cc e), ((λ e. cc e), ((λ e. cc e), tt))))))

quote-Lacks : Lacks 58 (lit "\"")
unfolding lit
quote-Lacks = ((λ e. cc e), tt)

-- {"password":"secret","n":1}
filter-masks_example :
    filter_sensitive_info (with_field (lit "{\"") (lit "\"") (lit "secret") (lit ",\"n\":1}"))
    ≡ with_field (lit "{\"") (lit "\"") (lit "***") (lit ",\"n\":1}")
unfolding lit index_of
filter-masks_example =
    filter-masks (lit "{\"") (lit "\"") (lit "secret") (lit ",\"n\":1}") refl quote-Lacks
      secret-Lacks refl

-- {"password":"secret","password":"pw"}: the second value stays.
filter-skips_example :
    filter_sensitive_info
      (with_field (lit "{\"") (lit "\"") (lit "secret") (lit ",\"password\":\"pw\"}"))
    ≡ with_field (lit "{\"") (lit "\"") (lit "***") (lit ",\"password\":\"pw\"}")
unfolding lit index_of
filter-skips_example =
    filter-skips (lit "{\"") (lit "\"") (lit "secret") (lit ",\"password\":\"pw\"}") refl
      quote-Lacks secret-Lacks (omega arith) refl

-- A log of today, with one line, and one of long ago.
abbrev today_file : LogFile
today_file = record { content = lit "old\n"; modified = 9999000 }

abbrev old_file : LogFile
old_file = record { content = lit "older\n"; modified = 5 }

abbrev open_log : LogState
open_log = record {
  logger = record new_logger {
    log_file = some (file_name (lit "2025-01-01"));
    current_log_size = 4;
  };
  directory = true;
  files =
      (file_name (lit "2025-01-01"), today_file) ∷ (file_name (lit "2024-01-01"), old_file) ∷ [];
  now = 9999999;
  can_make = true;
  is_fixed = λ name. false;
  open_results = [];
  write_results = [];
}

write_log-Appended_example :
    Appended
      (file_name (lit "2025-01-01"))
      (log_entry info (lit "main") login_line [] open_log)
      today_file
      open_log
      (write_log info (lit "main") login_line [] open_log)
unfolding lookup lit
write_log-Appended_example =
    write_log-Appended info (lit "main") login_line [] (file_name (lit "2025-01-01")) today_file
      open_log refl refl

-- The logger starts and writes a line.
abbrev closed_log : LogState
closed_log = record open_log { logger = new_logger; files = [] }

abbrev first_line : LogState
first_line = write_log info (lit "main") (lit "up") [] (init_logger (lit "./logs/") closed_log)

log_size_known_example : IsTracked first_line
log_size_known_example = log_size_known closed_log first_line refl (
    then_step (then_step idle (initialises (lit "./logs/")))
      (writes info (lit "main") (lit "up") []))

abbrev calls : List Call
calls =
    record {
      at = 9999999;
      level = info;
      module_name = lit "main";
      message = lit "a";
      client_ip = [];
    }
    ∷ record {
      at = 9999999;
      level = warning;
      module_name = lit "Server";
      message = lit "b";
      client_ip = lit "::1";
    }
    ∷ []

write_each-one_file_example :
    IsOpen
      (file_name (lit "2025-01-01"))
      (lit "old\n" ++ lines_of open_log calls)
      (write_each calls open_log)
unfolding lookup lit
write_each-one_file_example =
    write_each-one_file (lit "2025-01-01") (lit "old\n") calls open_log (refl, (refl, tt))
      (record {
        opened = refl;
        modified = 9999000;
        holds = refl;
        directory = refl;
        opening = refl;
        writing = refl;
      })

clean_expired_logs-removes_example :
    lookup (file_name (lit "2024-01-01")) (clean_expired_logs 90 open_log).files ≡ none
unfolding lookup lit
clean_expired_logs-removes_example =
    clean_expired_logs-removes 90 open_log (lit "2024-01-01") old_file refl refl (omega arith) refl
