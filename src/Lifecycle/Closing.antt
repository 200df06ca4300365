-- ===== src/Lifecycle/Closing.antt =====
-- What becomes of the listening socket and of the threads.
use lite_chat_server.Common.{
  Bool, List, Option, ap, arith, inl, inr, ◌<◌, ◌⊎◌, false, if◌then◌else◌, none, refl, some, subst,
  suc, true, zero, ℕ, ◌∷◌, ◌∙◌, ◌≡◌, ◌≢◌,
}
use lite_chat_server.Host.{Host}
use lite_chat_server.World.{World}
use lite_chat_server.ThreadPool.{ThreadPool}
use lite_chat_server.Server.Steps.{started}
use lite_chat_server.Monitor.{ServerMonitor, ask_stop, join_monitor, new_monitor, wake}
use lite_chat_server.Monitor.Reporting.{stop_monitor-joins}
use lite_chat_server.Lifecycle.Starting.{
  closed_by_stop, closings, start_server-IsStarted, starts_well,
}
use lite_chat_server.Lifecycle.{
  Calls, Outside, ServerObject, Thread, delete_objects, destroy_server, handle_signals, joinable,
  join_thread, joined, new_server, set_db_manager, shut_listener, start_server, stop_monitor,
  stop_rest, stop_server, stop_work,
}

-- StopMonitor returns, and the monitor does not run any more.
stop_monitor-returns :
    (m : ServerMonitor)
    → (m' : ServerMonitor) × (stop_monitor m ≡ some m') × (m'.is_running ≡ false)
unfolding stop_monitor
stop_monitor-returns m = go m.is_running refl
  where
    go :
        (running : Bool)
        → m.is_running ≡ running
        → (m' : ServerMonitor) × ((if running then join_monitor (wake (ask_stop m)).1 else some m)
            ≡ some m')
          × (m'.is_running ≡ false)
    go true e = (new_monitor, (stop_monitor-joins m e).1, refl)
    go false e = (m, refl, e)

-- What a stop leaves.
pub record IsStopped (closed : List ℕ) (s : ServerObject) : Type 0 where
  pub shut_down : s.server_socket ≡ none
  pub closed_all : s.closed ≡ closed
  pub at_rest : s.heartbeat_thread ≢ some joinable

join_thread-joined : (t : Option Thread) → join_thread t ≢ some joinable
join_thread-joined none e = cc e
join_thread-joined (some thread) e = cc e

shut_listener-IsStopped :
    (s : ServerObject)
    → s.heartbeat_thread ≢ some joinable
    → IsStopped (closed_by_stop s) (shut_listener s)
shut_listener-IsStopped s rest = go s.server_socket refl
  where
    go :
        (socket : Option ℕ)
        → s.server_socket ≡ socket
        → IsStopped
            (elim socket [ none ↦ s.closed | some socket ↦ socket ∷ s.closed ])
            (elim socket [
              | none ↦ s
              | some socket ↦ record s {
                server_socket = none;
                shut = socket ∷ s.shut;
                closed = socket ∷ s.closed;
              }
            ])
    go none e = record { shut_down = e; closed_all = refl; at_rest = rest }
    go (some socket) e = record { shut_down = refl; closed_all = refl; at_rest = rest }

-- To stop again closes nothing.
closed_again : (closed : List ℕ) (s : ServerObject) → IsStopped closed s → closed_by_stop s ≡ closed
closed_again closed s stopped =
    ap (λ (o : Option ℕ). elim o [ none ↦ s.closed | some socket ↦ socket ∷ s.closed ])
      stopped.shut_down
    ∙ stopped.closed_all

-- ~Server behind Stop returns, if the workers do.
delete_objects-returns :
    (closed : List ℕ) (s : ServerObject)
    → IsStopped closed s
    → (end : ServerObject) × (delete_objects true s ≡ some end) × IsStopped closed end
delete_objects-returns closed s stopped = go s.objects s.heartbeat_thread refl
  where
    go :
        (objects : Option (ThreadPool × World)) (t : Option Thread)
        → s.heartbeat_thread ≡ t
        → (end : ServerObject) × ((if elim objects [ none ↦ true | some objects ↦ true ]
              then elim t as (λ _. Option ServerObject) [
                | none ↦ some (record s { objects = none; monitor = none })
                | some thread ↦ elim thread [
                  | joinable ↦ none
                  | joined ↦
                      some (record s { objects = none; heartbeat_thread = none; monitor = none })
                ]
              ]
              else none)
            ≡ some end)
          × IsStopped closed end
    go none none e = (
      _,
      refl,
      record {
        shut_down = stopped.shut_down;
        closed_all = stopped.closed_all;
        at_rest = stopped.at_rest;
      },
    )
    go (some objects) none e = (
      _,
      refl,
      record {
        shut_down = stopped.shut_down;
        closed_all = stopped.closed_all;
        at_rest = stopped.at_rest;
      },
    )
    go objects (some joinable) e = absurd (stopped.at_rest e)
    go none (some joined) e = (
      _,
      refl,
      record {
        shut_down = stopped.shut_down;
        closed_all = stopped.closed_all;
        at_rest = λ x. cc x;
      },
    )
    go (some objects) (some joined) e = (
      _,
      refl,
      record {
        shut_down = stopped.shut_down;
        closed_all = stopped.closed_all;
        at_rest = λ x. cc x;
      },
    )

module _ ⦃host : Host⦄ where
  stop_rest-IsStopped : (s : ServerObject) → IsStopped (closed_by_stop s) (stop_rest s)
  stop_rest-IsStopped s =
      shut_listener-IsStopped (stop_work s) (join_thread-joined s.heartbeat_thread)

  -- Stop returns, closes the listening socket if it is there, and forgets it.
  stop_server-IsStopped :
      (s : ServerObject)
      → (s' : ServerObject) × (stop_server s ≡ some s') × IsStopped (closed_by_stop s) s'
  unfolding stop_server
  stop_server-IsStopped s = go s.monitor
    where
      go :
          (monitor : Option ServerMonitor)
          → (s' : ServerObject) × (elim monitor as (λ _. Option ServerObject) [
            | none ↦ some (stop_rest s)
            | some m ↦ elim (stop_monitor m) [
              | none ↦ none
              | some m' ↦ some (stop_rest (record s { monitor = some m' }))
            ]
          ]
              ≡ some s')
            × IsStopped (closed_by_stop s) s'
      go none = (stop_rest s, refl, stop_rest-IsStopped s)
      go (some m) =
          let (m', e, _) = stop_monitor-returns m in
          let s' : ServerObject = record s { monitor = some m' } in
          (stop_rest s', rw (e) refl, stop_rest-IsStopped s')

  pub destroy_server-returns :
      (s : ServerObject)
      → (end : ServerObject) × (destroy_server true s ≡ some end) × IsStopped (closed_by_stop s) end
  unfolding destroy_server
  destroy_server-returns s =
      let (s', e, stopped) = stop_server-IsStopped s in
      let (end, k, done) = delete_objects-returns (closed_by_stop s) s' stopped in
      (end, rw (destroy_server, e) k, done)

  pub signals_then_end :
      (signals : ℕ) (s : ServerObject)
      → (s' end : ServerObject) × (handle_signals signals s ≡ some s')
        × (destroy_server true s' ≡ some end)
        × IsStopped (closed_by_stop s) end
        × ((s.server_socket ≡ none) ⊎ (0 < signals) → s'.server_socket ≡ none)
  unfolding handle_signals
  signals_then_end zero s =
      let (end, e, stopped) = destroy_server-returns s in
      (
        s,
        end,
        refl,
        e,
        stopped,
        λ h. elim h [ inl gone ↦ gone | inr some_come ↦ absurd (omega arith) ],
      )
  signals_then_end (suc signals) s =
      let (v, e, stopped) = stop_server-IsStopped s in
      let (s', end, k, d, done, quiet) = signals_then_end signals v in
      (
        s',
        end,
        rw (handle_signals, e) k,
        d,
        subst (λ closed. IsStopped closed end) (closed_again (closed_by_stop s) v stopped) done,
        λ _. quiet (inl stopped.shut_down),
      )

  -- Start succeeds exactly if each of its calls does. However many signals come then, one after the
  -- other, if the ten workers return for the destructor the server comes to its end, and at the end the socket is forgotten and has been closed once
  -- if Start succeeded, twice if Start failed behind socket(), and never if there was none.
  pub server_life-closes :
      (calls : Calls) (o : Outside) (signals : ℕ)
      → ((start_server calls o (set_db_manager new_server)).0 ≡ starts_well calls)
        × (s end : ServerObject) × (handle_signals signals
              (start_server calls o (set_db_manager new_server)).1
            ≡ some s)
        × (destroy_server true s ≡ some end)
        × (end.server_socket ≡ none)
        × (end.closed ≡ closings calls)
  server_life-closes calls o signals =
      let (started, closes) = start_server-IsStarted calls o in
      let (s, end, k, d, stopped, _) =
        signals_then_end signals (start_server calls o (set_db_manager new_server)).1 in
      (started, s, end, k, d, stopped.shut_down, stopped.closed_all ∙ closes)
