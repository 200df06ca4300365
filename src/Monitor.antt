-- ===== src/Monitor.antt =====
-- system/server_monitor.cpp: what CollectStatus reports, and the thread that calls it.
pub mod Reporting
use lite_chat_server.Common.{
  Bool, Option, Str, [], false, if◌then◌else◌, lit, none, not, pos, some, true, ℕ,
}
use lite_chat_server.Host.{Host}
use lite_chat_server.Json.{Json, end, field, int, obj, real, str}
use lite_chat_server.Sessions.{SessionManager, get_online_user_count}
use lite_chat_server.ThreadPool.{ThreadPool, get_thread_pool_usage}
use lite_chat_server.DbManager.{DbManager, validate_connection}
use lite_chat_server.Logger.{LocalTime, LogState, info, write_log}

-- Where the thread of the monitor is: it sleeps, or it has left its loop.
pub data Phase : Type 0 where
  sleeping finished : Phase

pub record ServerMonitor : Type 0 where
  pub is_running : Bool
  -- `none` is nullptr
  pub monitor_thread : Option Phase

-- ServerMonitor(...)
abbrev pub new_monitor : ServerMonitor
new_monitor = record { is_running = false; monitor_thread = none }

unfoldable pub start_monitor : ServerMonitor → ServerMonitor
start_monitor m =
    if m.is_running then m else record { is_running = true; monitor_thread = some sleeping }

-- StopMonitor up to join()
unfoldable pub ask_stop : ServerMonitor → ServerMonitor
ask_stop m = if m.is_running then record m { is_running = false } else m

-- join() returns when the thread has; then the thread is deleted.
unfoldable pub join_monitor : ServerMonitor → Option ServerMonitor
join_monitor m = elim m.monitor_thread [
  | none ↦ some m
  | some phase ↦ elim phase [
    | sleeping ↦ none
    | finished ↦ some (record m { monitor_thread = none })
  ]
]

-- The thread wakes up: does it collect the status, and what is it in then?
unfoldable pub wake : ServerMonitor → Bool × ServerMonitor
wake m = if m.is_running then (true, m) else (false, record m { monitor_thread = some finished })

-- What CollectStatus reads.
pub record Status : Type 0 where
  pub online_users : ℕ
  pub connections : ℕ
  pub thread_pool_usage : ℕ × ℕ
  pub db_status : Str

abbrev pub status_text : Bool → Str
status_text true = lit "normal"
status_text false = lit "error"

-- The pointers are set by Start. ValidateConnection waits while the pool of connections is empty.
unfoldable pub read_status :
    SessionManager → ℕ → ThreadPool → Bool → DbManager → Option (Status × DbManager)
read_status sessions current_connections pool answers db = elim (validate_connection answers db) [
  | none ↦ none
  | some (valid, db') ↦ some (
    record {
      online_users = get_online_user_count sessions;
      connections = current_connections;
      thread_pool_usage = get_thread_pool_usage pool;
      db_status = status_text valid;
    },
    db',
  )
]

unfoldable pub monitor_json : Status → Json
monitor_json status = obj (
    field (lit "online_users") (int (pos status.online_users)) (
      field (lit "connections") (int (pos status.connections)) (
        field (lit "thread_pool_usage") (real status.thread_pool_usage.0 status.thread_pool_usage.1)
          (field (lit "db_status") (str status.db_status) end))))

module _ ⦃host : Host⦄ ⦃local : LocalTime⦄ where
  unfoldable pub record_monitor_data : Str → LogState → LogState
  record_monitor_data text log = write_log info (lit "Monitor") text [] log

  unfoldable pub collect_status :
      SessionManager → ℕ → ThreadPool → Bool → DbManager → LogState → Option (LogState × DbManager)
  collect_status sessions current_connections pool answers db log =
      elim (read_status sessions current_connections pool answers db) [
        | none ↦ none
        | some (status, db') ↦
            some (record_monitor_data (host.write_json (monitor_json status)) log, db')
      ]
