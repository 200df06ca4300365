-- ===== src/Monitor/Reporting.antt =====
-- What CollectStatus reports of a server that runs.
use lite_chat_server.Common.{Bool, List, arith, false, length, refl, some, true, ℕ, ◌<◌, ◌≡◌, ◌≤◌}
use lite_chat_server.Host.{Host}
use lite_chat_server.Database.{Database}
use lite_chat_server.World.{World}
use lite_chat_server.Sessions.{get_online_user_count}
use lite_chat_server.ThreadPool.{ThreadPool, get_thread_pool_usage, new_pool}
use lite_chat_server.ThreadPool.Workers.{PoolReach, pool-IsOrderly}
use lite_chat_server.DbManager.{DbManager}
use lite_chat_server.DbManager.Returning.{validate_connection-returns}
use lite_chat_server.DbManager.Refinement.{validate_connection-view}
use lite_chat_server.DbManager.Bag.{view}
use lite_chat_server.Protocol.{max_connections}
use lite_chat_server.Server.Steps.{Reach, connections-counted, started}
use lite_chat_server.Monitor.{
  ServerMonitor, Status, ask_stop, join_monitor, new_monitor, read_status, status_text, wake,
}

usage-le :
    (n : ℕ) (pool : ThreadPool)
    → PoolReach (new_pool n) pool
    → (get_thread_pool_usage pool).0 ≤ (get_thread_pool_usage pool).1
unfolding get_thread_pool_usage
usage-le n pool r = let (o, le) = pool-IsOrderly n pool r in ground (arith, o.size, le)

-- While a connection to the database is idle, the monitor of a server and a pool of `n` threads in
-- any state that they reach reports as connections the number of sessions, at most 128, and a usage of
-- the threads of at most one; the pool of connections has the same idle and the same lent ones after.
pub read_status-reports :
    ⦃host : Host⦄ (db : Database) (now : ℕ) (db_results : List Bool) (send_results : List ℕ)
    (w : World) (n : ℕ) (pool : ThreadPool) (answers : Bool) (m : DbManager)
    → Reach (started db now db_results send_results) w
    → PoolReach (new_pool n) pool
    → 0 < length m.connection_pool
    → (status : Status) × (m' : DbManager) × (read_status w.sessions w.current_connections pool
          answers m
        ≡ some (status, m'))
      × (status.connections ≡ length w.sessions.cli_session_map)
      × (status.connections ≤ max_connections)
      × (status.thread_pool_usage.0 ≤ status.thread_pool_usage.1)
      × (status.db_status ≡ status_text answers)
      × (view m' ≡ view m)
unfolding read_status
read_status-reports db now db_results send_results w n pool answers m r t some_idle =
    let counted = connections-counted db now db_results send_results w r in
    let (m', valid) = validate_connection-returns answers m some_idle in
    let same = validate_connection-view answers m (answers, m') valid in
    let status : Status = record {
      online_users = get_online_user_count w.sessions;
      connections = w.current_connections;
      thread_pool_usage = get_thread_pool_usage pool;
      db_status = status_text answers;
    } in
    (
      status,
      m',
      rw (read_status, valid) refl,
      counted.counted,
      counted.bounded,
      usage-le n pool t,
      refl,
      same,
    )

-- A monitor that runs wakes up at most once more after StopMonitor has asked its thread to end, does
-- not collect the status then, and is joined, which leaves it as the constructor made it.
pub stop_monitor-joins :
    (m : ServerMonitor)
    → m.is_running ≡ true
    → ((wake (ask_stop m)).0 ≡ false) × (join_monitor (wake (ask_stop m)).1 ≡ some new_monitor)
unfolding wake ask_stop join_monitor
stop_monitor-joins m running = ground arith
