-- ===== src/Lifecycle/Starting.antt =====
-- What Start does, by the calls that it makes.
use lite_chat_server.Common.{
  false≢true, Bool, List, Option, [], false, if◌then◌else◌, none, refl, some, true, ℕ, ◌∷◌, ◌≡◌,
}
use lite_chat_server.ThreadPool.{new_pool}
use lite_chat_server.Server.Steps.{started}
use lite_chat_server.Lifecycle.{
  Calls, Outside, ServerObject, new_server, set_db_manager, start_server,
}

-- Whether Start succeeds.
abbrev pub starts_well : Calls → Bool
starts_well calls = elim calls.socket [
  | none ↦ false
  | some socket ↦ if calls.setsockopt then if calls.bind then calls.listen else false else false
]

-- How often the socket is closed from Start to the destructor.
abbrev pub closings : Calls → List ℕ
closings calls = elim calls.socket [
  | none ↦ []
  | some socket ↦ if starts_well calls then socket ∷ [] else socket ∷ socket ∷ []
]

-- The calls of close() on the listening socket once Stop has run.
abbrev pub closed_by_stop : ServerObject → List ℕ
closed_by_stop s = elim s.server_socket [ none ↦ s.closed | some socket ↦ socket ∷ s.closed ]

-- What Start promises of the listening socket.
abbrev pub IsStarted : Calls → Bool × ServerObject → Type 0
IsStarted calls r = (r.0 ≡ starts_well calls) × (closed_by_stop r.1 ≡ closings calls)

pub start_server-IsStarted :
    (calls : Calls) (o : Outside)
    → IsStarted calls (start_server calls o (set_db_manager new_server))
unfolding start_server
start_server-IsStarted calls o = go calls.socket calls.setsockopt calls.bind calls.listen
  where
    go :
        (socket : Option ℕ) (a b c : Bool)
        → IsStarted
            (record { socket = socket; setsockopt = a; bind = b; listen = c })
            (start_server
              (record { socket = socket; setsockopt = a; bind = b; listen = c })
              o
              (set_db_manager new_server))
    go none a b c = (refl, refl)
    go (some socket) false b c = (refl, refl)
    go (some socket) true false c = (refl, refl)
    go (some socket) true true false = (refl, refl)
    go (some socket) true true true = (refl, refl)

-- A server that has started is in the state from which Server.Steps goes on, with ten idle workers.
pub start_server-started :
    (calls : Calls) (o : Outside)
    → starts_well calls ≡ true
    → (start_server calls o (set_db_manager new_server)).1.objects
      ≡ some (new_pool 10, started o.db o.now o.db_results o.send_results)
unfolding start_server
start_server-started calls o well = go calls.socket calls.setsockopt calls.bind calls.listen well
  where
    go :
        (socket : Option ℕ) (a b c : Bool)
        → starts_well (record { socket = socket; setsockopt = a; bind = b; listen = c }) ≡ true
        → (start_server
            (record { socket = socket; setsockopt = a; bind = b; listen = c })
            o
            (set_db_manager new_server)).1.objects
          ≡ some (new_pool 10, started o.db o.now o.db_results o.send_results)
    go none a b c e = absurd (false≢true e)
    go (some socket) false b c e = absurd (false≢true e)
    go (some socket) true false c e = absurd (false≢true e)
    go (some socket) true true false e = absurd (false≢true e)
    go (some socket) true true true e = refl
