-- ===== src/Tests/Life.antt =====
-- The server from its start to its end, what the monitor and the requests see, at concrete inputs.
use lite_chat_server.Common.{
  Bool, [], arith, false, length, lit, lookup, none, nat_eq, refl, some, str_eq, true, ◌++◌, ◌∷◌,
  ◌≡◌, ◌≤◌,
}
use lite_chat_server.Database.{UserRow, unread_rows, user_named}
use lite_chat_server.Database.Sorting.{InOrder}
use lite_chat_server.Database.Consistency.{IsConsistent}
use lite_chat_server.World.{World}
use lite_chat_server.Wire.Calm.{calm}
use lite_chat_server.Sessions.{
  ClientSession, SessionManager, get_session, get_session_by_username, set_username,
}
use lite_chat_server.MessageDao.{joined}
use lite_chat_server.Messages.{handle_send_message, push_offline_messages, validate_message_content}
use lite_chat_server.Messages.Delivery.{frames}
use lite_chat_server.Users.{hex_bytes}
use lite_chat_server.Messages.Exchange.{IsDelivered, IsStored, handle_send_message-Reaches}
use lite_chat_server.Messages.Offline.{new_row}
use lite_chat_server.Messages.Inbox.{push_offline_messages-delivers}
use lite_chat_server.Protocol.{max_connections}
use lite_chat_server.DbManager.{DbManager, init_connection_pool, no_pool}
use lite_chat_server.DbManager.Bag.{view}
use lite_chat_server.Monitor.{Status, read_status, status_text}
use lite_chat_server.Monitor.Reporting.{read_status-reports}
use lite_chat_server.Lifecycle.{
  Calls, Exit, Meets, Outside, ServerObject, destroy_server, handle_signals, main_program,
  new_server, set_db_manager, start_server,
}
use lite_chat_server.Lifecycle.Closing.{server_life-closes}
use lite_chat_server.Lifecycle.Exits.{Ends, Serves, main_program-exits}
use lite_chat_server.Server.Dispatch.{serve_request, session_name}
use lite_chat_server.Server.Parsing.{claim_session}
use lite_chat_server.Server.Identity.{claiming, serve_request-anonymous, serve_request-own, served}
use lite_chat_server.Tests.{
  alice, logged_in, logged_in-Reach, one_user, test_host, to_bob, two_users, newcomer, visited,
  digest,
}
use lite_chat_server.Tests.Pools.{one_taken, one_taken-Reach, filled}

read_status-reports_example :
    (status : Status) × (m' : DbManager) × (read_status logged_in.sessions
        logged_in.current_connections one_taken true filled
      ≡ some (status, m'))
    × (status.connections ≡ length logged_in.sessions.cli_session_map)
    × (status.connections ≤ max_connections)
    × (status.thread_pool_usage.0 ≤ status.thread_pool_usage.1)
    × (status.db_status ≡ status_text true)
    × (view m' ≡ view filled)
read_status-reports_example =
    read_status-reports one_user 1000 [] [] logged_in 2 one_taken true filled logged_in-Reach
      one_taken-Reach (omega arith)

-- The port is taken: bind() fails.
abbrev port_taken : Calls
port_taken = record { socket = some 3; setsockopt = true; bind = false; listen = true }

abbrev outside : Outside
outside = record { db = one_user; now = 1000; db_results = []; send_results = [] }

server_life-closes_example :
    ((start_server port_taken outside (set_db_manager new_server)).0 ≡ false)
    × (s end : ServerObject) × (handle_signals 0
          (start_server port_taken outside (set_db_manager new_server)).1
        ≡ some s)
    × (destroy_server true s ≡ some end)
    × (end.server_socket ≡ none)
    × (end.closed ≡ 3 ∷ 3 ∷ [])
server_life-closes_example = server_life-closes port_taken outside 0

-- All goes well, and two signals come.
abbrev all_well : Meets
all_well = record {
  driver = true;
  outcomes = [];
  answers = true;
  calls = record { socket = some 3; setsockopt = true; bind = true; listen = true };
  outside = outside;
  signals = 2;
  workers_return = true;
}

abbrev serve_nothing : DbManager → DbManager
serve_nothing m = m

serve_nothing-Serves : Serves serve_nothing
serve_nothing-Serves m reach lent = (reach, lent)

main_program-exits_example :
    (success : Bool) × (m : DbManager) × (e : Exit) × (init_connection_pool 10 true [] true no_pool
      ≡ some (success, m))
    × (main_program all_well serve_nothing ≡ some e)
    × Ends success all_well e
main_program-exits_example =
    main_program-exits all_well serve_nothing serve_nothing-Serves (omega arith) refl

-- Alice is on socket 5, and bob has written to her twice while she was away.
abbrev alice_there : World
alice_there = record two_users {
  sessions = record {
    cli_session_map = (5, set_username alice newcomer) ∷ [];
    username_to_socket = (alice, 5) ∷ [];
  };
  current_connections = 1;
  db = record two_users.db {
    messages =
        record {
          message_id = 1;
          sender_id = 2;
          receiver_id = 1;
          content = lit "later";
          send_time = 990;
          is_read = false;
        }
        ∷ record {
          message_id = 2;
          sender_id = 2;
          receiver_id = 1;
          content = lit "first";
          send_time = 980;
          is_read = false;
        }
        ∷ [];
    next_message = 3;
  };
}

two_users-IsConsistent : IsConsistent two_users.db
unfolding lit
two_users-IsConsistent = record {
  ids = (((λ e. cc e), tt), (tt, tt));
  fresh = (omega arith, (omega arith, tt));
  names = ((refl, tt), (tt, tt));
  pairs = tt;
  friendships = tt;
  letters = tt;
}

abbrev alice_row : UserRow
alice_row = record {
  user_id = 1;
  username = alice;
  password_hash = hex_bytes (digest (lit "secret"));
  is_online = false;
  last_login_time = none;
}

-- Bob's later session.
abbrev bob_session : ClientSession
bob_session = set_username (lit "bob") newcomer

abbrev bob_there : SessionManager
bob_there = record {
  cli_session_map = (5, bob_session) ∷ [];
  username_to_socket = (lit "bob", 5) ∷ [];
}

abbrev bob_row : UserRow
bob_row = record {
  user_id = 2;
  username = lit "bob";
  password_hash = hex_bytes (digest (lit "secret"));
  is_online = false;
  last_login_time = none;
}

-- Bob is away: only a client without a name is there.
abbrev bob_away : World
bob_away = record visited { db = two_users.db }

-- Later bob is there, and the message waits in the tables, behind another one.
abbrev bob_back : World
bob_back = record bob_away {
  db = record two_users.db {
    messages =
        new_row 1 2 (lit "hello") 1000 two_users.db
        ∷ record (new_row 1 2 (lit "and") 1001 two_users.db) { message_id = 2 }
        ∷ [];
    next_message = 3;
  };
  sessions = bob_there;
}

bob_back-IsConsistent : IsConsistent bob_back.db
unfolding lit
bob_back-IsConsistent = record {
  ids = (((λ e. cc e), tt), (tt, tt));
  fresh = (omega arith, (omega arith, tt));
  names = ((refl, tt), (tt, tt));
  pairs = tt;
  friendships = tt;
  letters = ((refl, refl), ((refl, refl), tt));
}

handle_send_message-Reaches_example :
    IsStored alice_row bob_row to_bob bob_away (handle_send_message to_bob (calm bob_away))
    × IsDelivered alice_row bob_row to_bob bob_session 1 bob_back
unfolding user_named lit get_session_by_username lookup validate_message_content
handle_send_message-Reaches_example =
    handle_send_message-Reaches to_bob alice_row bob_row bob_row bob_session bob_away bob_back
      two_users-IsConsistent refl (omega arith) (omega arith) refl refl refl bob_back-IsConsistent
      refl refl refl refl

alice_there-IsConsistent : IsConsistent alice_there.db
unfolding lit
alice_there-IsConsistent = record {
  ids = (((λ e. cc e), tt), (tt, tt));
  fresh = (omega arith, (omega arith, tt));
  names = ((refl, tt), (tt, tt));
  pairs = tt;
  friendships = tt;
  letters = ((refl, refl), ((refl, refl), tt));
}

push_offline_messages-delivers_example :
    let inbox = joined alice_there.db (unread_rows 1 alice_there.db) in
    let after : World = (push_offline_messages alice (calm alice_there)).1 in
    (after.outbox ≡ alice_there.outbox ++ frames 5 inbox)
    × (length inbox ≡ length (unread_rows 1 alice_there.db))
    × InOrder (unread_rows 1 alice_there.db)
    × (unread_rows 1 after.db ≡ [])
    × (after.sessions ≡ alice_there.sessions)
unfolding user_named lit get_session_by_username lookup
push_offline_messages-delivers_example =
    push_offline_messages-delivers alice alice_row (set_username alice newcomer) alice_there
      alice_there-IsConsistent refl refl refl

-- Alice, logged in, claims to be bob; on another server, a client that has not logged in claims to be alice.
serve_request-own_example :
    serve_request 5 (claiming (lit "bob") to_bob) alice_there
    ≡ served 5 to_bob.type (claiming alice to_bob) alice_there
unfolding lit session_name get_session lookup
serve_request-own_example = serve_request-own 5 (claiming (lit "bob") to_bob) alice_there refl refl

serve_request-anonymous_example :
    serve_request 5 (claiming alice to_bob) visited
    ≡ served 5 to_bob.type (claim_session alice (claiming [] to_bob)) visited
unfolding lit session_name get_session lookup
serve_request-anonymous_example = serve_request-anonymous 5 alice [] to_bob visited refl refl refl
