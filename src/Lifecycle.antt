-- ===== src/Lifecycle.antt =====
-- The life of the object Server of connection/server.cpp, from Start to its destructor, with the
-- listening socket and the threads that it owns; and the main program of main.cpp around it.
pub mod Starting
pub mod Closing
pub mod Exits
use lite_chat_server.Common.{
  Bool, List, Option, [], false, if◌then◌else◌, none, some, suc, true, zero, ℕ, ◌∷◌,
}
use lite_chat_server.Host.{Host}
use lite_chat_server.Database.{Database}
use lite_chat_server.World.{World}
use lite_chat_server.ThreadPool.{ThreadPool, new_pool, stop_pool}
use lite_chat_server.DbManager.{DbManager, destroy_pool, init_connection_pool, no_pool}
use lite_chat_server.Monitor.{
  ServerMonitor, ask_stop, join_monitor, new_monitor, start_monitor, wake,
}
use lite_chat_server.Server.Connections.{stop}
use lite_chat_server.Server.Steps.{started}

-- A std::thread: join() makes it one that is not joinable.
pub data Thread : Type 0 where
  joinable joined : Thread

pub record ServerObject : Type 0 where
  -- dbManager is not nullptr
  pub db_manager : Bool
  -- `none` is -1
  pub server_socket : Option ℕ
  -- what Start makes before it opens the socket: the thread pool, and the managers with their state,
  -- which also holds `running`
  pub objects : Option (ThreadPool × World)
  pub heartbeat_thread : Option Thread
  pub monitor : Option ServerMonitor
  -- the calls of shutdown() and close() on the listening socket
  pub shut : List ℕ
  pub closed : List ℕ

-- Server()
abbrev pub new_server : ServerObject
new_server = record {
  db_manager = false;
  server_socket = none;
  objects = none;
  heartbeat_thread = none;
  monitor = none;
  shut = [];
  closed = [];
}

abbrev pub set_db_manager : ServerObject → ServerObject
set_db_manager s = record s { db_manager = true }

-- What socket(), setsockopt(), bind() and listen() return.
pub record Calls : Type 0 where
  pub socket : Option ℕ
  pub setsockopt : Bool
  pub bind : Bool
  pub listen : Bool

-- The database, the time and the outcomes that the server meets.
pub record Outside : Type 0 where
  pub db : Database
  pub now : ℕ
  pub db_results : List Bool
  pub send_results : List ℕ

abbrev pub set_running : Bool → ThreadPool × World → ThreadPool × World
set_running running (pool, w) = (pool, record w { running = running })

abbrev pub make_objects : Outside → ServerObject → ServerObject
make_objects o s = record s {
  objects = some (set_running false (new_pool 10, started o.db o.now o.db_results o.send_results));
}

abbrev pub close_listener : ℕ → ServerObject → ServerObject
close_listener socket s = record s { closed = socket ∷ s.closed }

abbrev pub map_objects :
    (ThreadPool × World → ThreadPool × World)
    → Option (ThreadPool × World)
    → Option (ThreadPool × World)
map_objects f none = none
map_objects f (some objects) = some (f objects)

-- running = true, the heartbeat and the monitor
abbrev pub begin_service : ServerObject → ServerObject
begin_service s = record s {
  objects = map_objects (set_running true) s.objects;
  heartbeat_thread = some joinable;
  monitor = some (start_monitor new_monitor);
}

-- Start behind socket()
abbrev pub listen_on : Calls → ℕ → ServerObject → Bool × ServerObject
listen_on calls socket s =
    if calls.setsockopt
    then if calls.bind
      then if calls.listen then (true, begin_service s) else (false, close_listener socket s)
      else (false, close_listener socket s)
    else (false, close_listener socket s)

unfoldable pub start_server : Calls → Outside → ServerObject → Bool × ServerObject
start_server calls o s =
    if s.db_manager
    then elim calls.socket [
      | none ↦ (false, make_objects o s)
      | some socket ↦
          listen_on calls socket (record (make_objects o s) { server_socket = some socket })
    ]
    else (false, s)

-- StopMonitor: the thread wakes up once more before join() returns. `none` is a join() for ever.
unfoldable pub stop_monitor : ServerMonitor → Option ServerMonitor
stop_monitor m = if m.is_running then join_monitor (wake (ask_stop m)).1 else some m

-- The end of Stop.
abbrev pub shut_listener : ServerObject → ServerObject
shut_listener s = elim s.server_socket [
  | none ↦ s
  | some socket ↦ record s {
    server_socket = none;
    shut = socket ∷ s.shut;
    closed = socket ∷ s.closed;
  }
]

abbrev pub join_thread : Option Thread → Option Thread
join_thread none = none
join_thread (some thread) = some joined

-- ~ThreadPool, if there is a pool, joins its ten workers. Whether they all return depends on the tasks
-- that they run and on the wakeups that they get; `workers_return` says so.
abbrev pub pool_ends : Bool → ServerObject → Bool
pool_ends workers_return s = elim s.objects [ none ↦ true | some objects ↦ workers_return ]

-- ~Server behind Stop: a join() that does not return, and to delete a thread that is joinable, which
-- ends the program, are `none`.
abbrev pub delete_objects : Bool → ServerObject → Option ServerObject
delete_objects workers_return s =
    if pool_ends workers_return s
    then elim s.heartbeat_thread [
      | none ↦ some (record s { objects = none; monitor = none })
      | some thread ↦ elim thread [
        | joinable ↦ none
        | joined ↦ some (record s { objects = none; heartbeat_thread = none; monitor = none })
      ]
    ]
    else none

-- acceptThread.join(): the loop of AcceptClientLoop ends once Stop has shut the listening socket down.
abbrev pub join_accept : ServerObject → Option ServerObject
join_accept s = elim s.server_socket [ none ↦ some s | some socket ↦ none ]

module _ ⦃host : Host⦄ where
  -- Stop behind StopMonitor. The heartbeat thread returns since `running` is false.
  abbrev pub stop_work : ServerObject → ServerObject
  stop_work s = record s {
    heartbeat_thread = join_thread s.heartbeat_thread;
    objects = map_objects (λ objects. (objects.0, (stop objects.1).1)) s.objects;
  }

  abbrev pub stop_rest : ServerObject → ServerObject
  stop_rest s = shut_listener (stop_work s)

  unfoldable pub stop_server : ServerObject → Option ServerObject
  stop_server s = elim s.monitor [
    | none ↦ some (stop_rest s)
    | some m ↦ elim (stop_monitor m) [
      | none ↦ none
      | some m' ↦ some (stop_rest (record s { monitor = some m' }))
    ]
  ]

  unfoldable pub destroy_server : Bool → ServerObject → Option ServerObject
  destroy_server workers_return s = elim (stop_server s) [
    | none ↦ none
    | some s' ↦ delete_objects workers_return s'
  ]

  -- Signals that come one after the other: SignalHandler calls Stop for each.
  unfoldable pub handle_signals : ℕ → ServerObject → Option ServerObject
  handle_signals zero s = some s
  handle_signals (suc signals) s = elim (stop_server s) [
    | none ↦ none
    | some s' ↦ handle_signals signals s'
  ]

-- What is left when the program returns: its code, the object Server if it was made, and the
-- connections to the database that the destructor of their pool destroyed.
pub record Exit : Type 0 where
  pub code : ℕ
  pub server : ServerObject
  pub destroyed : List ℕ
  pub db_manager : DbManager

abbrev pub exit_with : ℕ → ServerObject → DbManager → Exit
exit_with code s m = record {
  code = code;
  server = s;
  destroyed = (destroy_pool m).0;
  db_manager = (destroy_pool m).1;
}

-- What the main program meets: the calls of InitConnectionPool, those of Start, how many SIGINT and
-- SIGTERM come while the server runs, and whether the workers return that ~ThreadPool joins.
pub record Meets : Type 0 where
  pub driver : Bool
  pub outcomes : List Bool
  pub answers : Bool
  pub calls : Calls
  pub outside : Outside
  pub signals : ℕ
  pub workers_return : Bool

module _ ⦃host : Host⦄ where
  -- main() behind InitConnectionPool; `served` is the pool when the threads of the server have ended.
  abbrev pub run_server : Meets → DbManager → DbManager → Option Exit
  run_server o m served =
      let (success, s) = start_server o.calls o.outside (set_db_manager new_server) in
      if success
      then elim (handle_signals o.signals s) [
        | none ↦ none
        | some s' ↦ elim (join_accept s') [
          | none ↦ none
          | some idle ↦ elim (destroy_server o.workers_return idle) [
            | none ↦ none
            | some end ↦ some (exit_with 0 end served)
          ]
        ]
      ]
      else elim (destroy_server o.workers_return s) [
        | none ↦ none
        | some end ↦ some (exit_with 1 end m)
      ]

  -- main(). `serve` is what the threads of the server do to the pool. `none` is a wait for ever, or an
  -- end by std::terminate.
  unfoldable pub main_program : Meets → (DbManager → DbManager) → Option Exit
  main_program o serve = elim (init_connection_pool 10 o.driver o.outcomes o.answers no_pool) [
    | none ↦ none
    | some (success, m) ↦
        if success then run_server o m (serve m) else some (exit_with 1 new_server m)
  ]
