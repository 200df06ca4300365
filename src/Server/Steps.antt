-- ===== src/Server/Steps.antt =====
-- The server of connection/server.cpp as a transition system. A step is what one thread does while
-- it is not disturbed: the accept thread takes a client, a worker serves one message or ends its
-- client, the heartbeat thread makes one round, Stop runs, or something outside the server changes.
use lite_chat_server.Common.{
  Bool, List, Str, [], arith, lookup, none, refl, some, true, ℕ, ◌≡◌, nat_eq, str_eq,
}
use lite_chat_server.Host.{Host}
use lite_chat_server.Sessions.{
  ClientSession, SessionManager, get_session, get_session_by_username, no_sessions,
}
use lite_chat_server.Sessions.Linked.{IsSound, get_session_by_username-named, no_sessions-IsLinked}
use lite_chat_server.Database.{Database}
use lite_chat_server.World.{World}
use lite_chat_server.World.Frame.{OfRoom, room}
use lite_chat_server.Users.Counting.{IsCounted}
use lite_chat_server.Server.Safety.{
  IsClosed, IsSafe, IsSound-IsClosed, Unit-IsClosed, accept_connection-IsSafe,
  dispatch_request-IsCounted, dispatch_request-IsSafe,
}
use lite_chat_server.Server.Endings.{
  abandon-IsSafe, disconnect-IsSafe, heartbeat_check-IsSafe, stop-Q,
}
use lite_chat_server.Server.Dispatch.{dispatch_request}
use lite_chat_server.Server.Connections.{abandon, accept_connection, disconnect, stop}
use lite_chat_server.Server.Heartbeat.{heartbeat_check}

-- The server behind Start, with the outcomes that the outside has in store.
abbrev pub started : Database → ℕ → List Bool → List ℕ → World
started db now db_results send_results = record {
  sessions = no_sessions;
  db = db;
  cached_friend_lists = [];
  current_connections = 0;
  running = true;
  outbox = [];
  shut = [];
  closed = [];
  now = now;
  db_results = db_results;
  send_results = send_results;
}

module _ ⦃host : Host⦄ where
  -- A step that serves no message
  pub data Quiet (w : World) : World → Type 0 where
    -- accept() gives a socket that no session holds
    connects :
        (socket : ℕ) (ip : Str) (port : ℕ)
        → lookup socket w.sessions.cli_session_map ≡ none
        → Quiet w (accept_connection socket ip port w).1
    -- ReceiveData gave the empty string
    leaves : (socket : ℕ) → Quiet w (disconnect socket w).1
    -- an exception came out of the loop
    fails : (socket : ℕ) → Quiet w (abandon socket w).1
    checks : Quiet w (heartbeat_check w).1
    stops : Quiet w (stop w).1
    -- Time goes by; another program writes to the database; outcomes are decided.
    outside :
        (db : Database) (now : ℕ) (db_results : List Bool) (send_results : List ℕ)
        → Quiet w
            (record w { db = db; now = now; db_results = db_results; send_results = send_results })

  pub data Step (w : World) : World → Type 0 where
    -- ReceiveData gave the text, and DispatchRequest serves it, whether the socket has a session or
    -- the heartbeat check has removed it
    speaks : (socket : ℕ) (text : Str) → Step w (dispatch_request socket text w).1
    happens : {u : World} → Quiet w u → Step w u

  pub data Reach (w : World) : World → Type 0 where
    here : Reach w w
    next : {v u : World} → Reach w v → Step v u → Reach w u

  -- A message comes from a client that has a session.
  unfoldable pub HasSession : {w u : World} → Step w u → Type 0
  HasSession {w} (speaks socket text) =
      (session : ClientSession) × (lookup socket w.sessions.cli_session_map ≡ some session)
  HasSession (happens t) = Unit {0}

  -- A run in which no client speaks whose session is gone
  unfoldable pub AllHaveSessions : {w u : World} → Reach w u → Type 0
  AllHaveSessions here = Unit {0}
  AllHaveSessions (next r t) = AllHaveSessions r × HasSession t

  Quiet-IsSafe :
      (P : SessionManager → Type 0)
      → IsClosed P
      → {w u : World} → Quiet w u
      → OfRoom (IsSafe P) w
      → OfRoom (IsSafe P) u
  Quiet-IsSafe P closed {w} (connects socket ip port fresh) s =
      accept_connection-IsSafe P closed socket ip port w fresh s
  Quiet-IsSafe P closed {w} (leaves socket) s = (disconnect-IsSafe P closed socket).at w s
  Quiet-IsSafe P closed {w} (fails socket) s = (abandon-IsSafe P closed socket).at w s
  Quiet-IsSafe P closed {w} checks s = (heartbeat_check-IsSafe P closed).at w s
  Quiet-IsSafe P closed {w} stops s = (stop-Q (room (IsSafe P))).at w s
  Quiet-IsSafe P closed (outside db now db_results send_results) s = s

  -- Whoever speaks, the counter stays right.
  Reach-IsCounted :
      {w u : World}
      → Reach w u
      → OfRoom (IsSafe (λ _. Unit {0})) w
      → OfRoom (IsSafe (λ _. Unit {0})) u
  Reach-IsCounted here s = s
  Reach-IsCounted (next {v} r (speaks socket text)) s =
      dispatch_request-IsCounted socket text v (Reach-IsCounted r s)
  Reach-IsCounted (next r (happens t)) s =
      Quiet-IsSafe (λ _. Unit {0}) Unit-IsClosed t (Reach-IsCounted r s)

  -- While only clients with a session speak, the tables of the names stay sound as well.
  Reach-IsSafe :
      {w u : World} (r : Reach w u)
      → AllHaveSessions r
      → OfRoom (IsSafe IsSound) w
      → OfRoom (IsSafe IsSound) u
  unfolding AllHaveSessions HasSession
  Reach-IsSafe here a s = s
  Reach-IsSafe (next {v} r (speaks socket text)) (a, (session, e)) s =
      dispatch_request-IsSafe socket text session v e (Reach-IsSafe r a s)
  Reach-IsSafe (next r (happens t)) (a, u) s =
      Quiet-IsSafe IsSound IsSound-IsClosed t (Reach-IsSafe r a s)

  started-IsCounted :
      (db : Database) (now : ℕ) (db_results : List Bool) (send_results : List ℕ)
      → OfRoom IsCounted (started db now db_results send_results)
  started-IsCounted db now db_results send_results = record {
    distinct = tt;
    counted = refl;
    bounded = omega arith;
  }

  -- In every state that the server reaches from its start, whatever clients, database and network do
  -- and however their steps interleave, `current_connections` is the number of sessions, it is at
  -- most `max_connections` (128), and no socket has two sessions.
  pub connections-counted :
      (db : Database) (now : ℕ) (db_results : List Bool) (send_results : List ℕ) (w : World)
      → Reach (started db now db_results send_results) w
      → IsCounted w.sessions w.current_connections
  connections-counted db now db_results send_results w r =
      (Reach-IsCounted r
        (record { sound = tt; counted = started-IsCounted db now db_results send_results })).counted

  -- In every state that the server reaches from its start by a run in which no client whose session
  -- the heartbeat check or another end has removed sends another message, a session that a user name
  -- leads to bears that name and is stored under its own socket, to which the name is bound.
  pub name_lookup_sound :
      (db : Database) (now : ℕ) (db_results : List Bool) (send_results : List ℕ) (w : World)
      (u : Str) (c : ClientSession) (r : Reach (started db now db_results send_results) w)
      → AllHaveSessions r
      → get_session_by_username u w.sessions ≡ some c
      → (c.username ≡ u)
        × (get_session c.socket w.sessions ≡ some c)
        × (lookup u w.sessions.username_to_socket ≡ some c.socket)
  unfolding get_session
  name_lookup_sound db now db_results send_results w u c r all e =
      let safe = Reach-IsSafe r all (record {
        sound = no_sessions-IsLinked.sound;
        counted = started-IsCounted db now db_results send_results;
      }) in
      get_session_by_username-named w.sessions u c safe.sound e
