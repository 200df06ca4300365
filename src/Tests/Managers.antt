-- ===== src/Tests/Managers.antt =====
-- Requests to the three managers, and their theorems at concrete inputs.
use lite_chat_server.Common.{
  [], false, ◌∷◌, arith, inl, lit, lookup, none, refl, true, ◌≡◌, ◌≢◌, ◌⊎◌, nat_eq, str_eq,
}
use lite_chat_server.Database.{
  UserRow, count_friend_rows, insert_user_row, user_named, user_with_id,
}
use lite_chat_server.World.{World, ◌>>=◌}
use lite_chat_server.Server.Connections.{accept_connection, admit}
use lite_chat_server.Users.Columns.{insert_user_row-accepts}
use lite_chat_server.Users.Parties.{Refused, Settled}
use lite_chat_server.Friends.{handle_add_friend, handle_delete_friend}
use lite_chat_server.Friends.Outcomes.{Added, handle_add_friend-outcome}
use lite_chat_server.Friends.Removal.{deleted, four_answers, handle_delete_friend-removes, removed}
use lite_chat_server.Messages.Offline.{new_row, sent, with_message}
use lite_chat_server.Messages.Online.{forwarded, handle_send_message-marks, notified, sending}
use lite_chat_server.Wire.Calm.{calm, put_out, with_db}
use lite_chat_server.Sessions.{ClientSession, get_session_by_username, set_username}
use lite_chat_server.Messages.{
  handle_history_messages, handle_send_message, validate_message_content,
}
use lite_chat_server.Messages.History.{Answer, handle_history_messages-outcome}
use lite_chat_server.Messages.Outcomes.{Stored, all_read, handle_send_message-outcome}
use lite_chat_server.Users.Exclusive.{handle_login-IsLinked}
use lite_chat_server.Users.{
  handle_login, handle_register, handle_update_user, hex_bytes, md5_encrypt, validate_username,
}
use lite_chat_server.World.Yields.{Same}
use lite_chat_server.Users.Outcomes.{Registered, handle_register-outcome}
use lite_chat_server.Users.Access.{
  Knows, LoggedIn, handle_login-outcome, handle_update_user-outcome,
}
use lite_chat_server.Sessions.Linked.{IsLinked}
use lite_chat_server.Tests.{
  alice, secret, one_user, connected, newcomer, login_request, two_users, to_bob, visited,
  one_session-IsLinked, test_host, digest,
}

handle_register-outcome_example :
    Registered connected.sessions connected.db connected.current_connections login_request
      (handle_register login_request connected).0
      (handle_register login_request connected).1
handle_register-outcome_example = handle_register-outcome login_request connected

handle_login-outcome_example :
    LoggedIn connected.sessions connected.db connected.current_connections login_request
      (handle_login login_request connected).0
      (handle_login login_request connected).1
handle_login-outcome_example = handle_login-outcome login_request connected

handle_update_user-outcome_example :
    (((handle_update_user login_request connected).0.code ≢ 0)
      × Same connected.sessions connected.db connected.current_connections
          (handle_update_user login_request connected).1)
    ⊎ Knows connected.sessions connected.db connected.current_connections alice secret
handle_update_user-outcome_example = handle_update_user-outcome login_request connected

handle_add_friend-outcome_example :
    Settled two_users.sessions two_users.db two_users.current_connections
      (Added two_users.sessions two_users.db two_users.current_connections)
      alice
      (lit "bob")
      (handle_add_friend to_bob two_users).0
      (handle_add_friend to_bob two_users).1
unfolding lit
handle_add_friend-outcome_example = handle_add_friend-outcome to_bob two_users

-- Alice has bob as a friend, each has written to the other, and the last statement fails.
abbrev friends_there : World
friends_there = record two_users {
  db = record two_users.db {
    friends = record { user_id1 = 1; user_id2 = 2 } ∷ [];
    messages =
        new_row 1 2 (lit "hello") 1000 two_users.db
        ∷ record (new_row 2 1 (lit "and") 1001 two_users.db) { message_id = 2 }
        ∷ [];
    next_message = 3;
  };
}

abbrev alice_row : UserRow
alice_row = record {
  user_id = 1;
  username = alice;
  password_hash = hex_bytes (digest secret);
  is_online = false;
  last_login_time = none;
}

abbrev bob_row : UserRow
bob_row = record {
  user_id = 2;
  username = lit "bob";
  password_hash = hex_bytes (digest secret);
  is_online = false;
  last_login_time = none;
}

handle_delete_friend-removes_example :
    handle_delete_friend to_bob (four_answers false [] friends_there)
    ≡ (deleted, removed 1 2 false [] friends_there)
unfolding lit user_named count_friend_rows
handle_delete_friend-removes_example =
    handle_delete_friend-removes to_bob alice_row bob_row false [] friends_there refl refl refl
      (omega arith)

-- Bob is online on socket 5.
abbrev bob_online : UserRow
bob_online = record bob_row { is_online = true }

abbrev bob_session : ClientSession
bob_session = set_username (lit "bob") newcomer

abbrev bob_listens : World
bob_listens = record two_users {
  db = record two_users.db { users = alice_row ∷ bob_online ∷ [] };
  sessions = record {
    cli_session_map = (5, bob_session) ∷ [];
    username_to_socket = (lit "bob", 5) ∷ [];
  };
}

handle_send_message-marks_example :
    let stored = with_message 1 2 (lit "hello") 1000 bob_listens.db in
    (handle_send_message to_bob (sending [] bob_listens) ≡ (
      sent,
      calm (
          put_out 5
            (notified to_bob)
            (with_db (all_read 1 2 stored) (put_out 5 (forwarded to_bob) bob_listens))),
    ))
    × (handle_send_message to_bob (sending (0 ∷ []) bob_listens)
        ≡ (sent, calm (put_out 5 (notified to_bob) (with_db stored bob_listens))))
unfolding lit user_named user_with_id get_session_by_username lookup validate_message_content
    accept_connection ◌>>=◌ admit
handle_send_message-marks_example =
    handle_send_message-marks to_bob alice_row bob_online bob_session bob_listens refl (omega arith)
      (omega arith) refl refl refl refl refl

handle_send_message-outcome_example :
    Refused two_users.sessions two_users.db two_users.current_connections
      (handle_send_message to_bob two_users).0
      (handle_send_message to_bob two_users).1
    ⊎ ((validate_message_content (lit "hello") ≡ true)
        × Settled two_users.sessions two_users.db two_users.current_connections
            (Stored two_users.sessions two_users.db two_users.current_connections (lit "hello"))
            alice
            (lit "bob")
            (handle_send_message to_bob two_users).0
            (handle_send_message to_bob two_users).1)
handle_send_message-outcome_example = handle_send_message-outcome to_bob two_users

-- The message is there.
abbrev written : World
written = (handle_send_message to_bob two_users).1

handle_history_messages-outcome_example :
    Answer written.sessions written.db written.current_connections to_bob
      (handle_history_messages to_bob written).0
      (handle_history_messages to_bob written).1
handle_history_messages-outcome_example = handle_history_messages-outcome to_bob written

insert_user_row-accepts_example : insert_user_row (lit "carol") (md5_encrypt secret) one_user ≢ none
unfolding validate_username lit
insert_user_row-accepts_example =
    insert_user_row-accepts (lit "carol") secret one_user refl refl (omega arith)

handle_login-IsLinked_example : IsLinked (handle_login login_request visited).1.sessions
unfolding lookup
handle_login-IsLinked_example =
    handle_login-IsLinked login_request visited refl one_session-IsLinked
      (record { session = newcomer; at = refl; vacant = inl refl }) (λ id hash e t bound. cc)
