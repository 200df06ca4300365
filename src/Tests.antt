-- ===== src/Tests.antt =====
-- Runs of the model on a small server, and the theorems on its states at concrete inputs.
mod Logging
mod Pools
mod Wiring
mod Managers
mod Life
use lite_chat_server.Common.{
  Bool, Option, Str, [], false, if◌then◌else◌, insert, lit, lookup, modify, none, pos, refl,
  replicate, some, str_beq, str_beq_iff, sym, true, ◌%◌, ◌+◌, ◌++◌, ◌/◌, ◌==◌, ◌^◌, ◌∙◌, ◌∷◌, ◌≡◌,
  ◌≢◌, ◌≤◌, ◌⊎◌, nat_eq, str_eq,
}
use lite_chat_server.Host.{Host}
use lite_chat_server.Json.{Fields, Json, end, field, null, obj, str}
use lite_chat_server.Database.{
  Database, by_time, empty_database, friends_of, set_login_time, set_online, unread_rows,
  user_named, user_with_id,
}
use lite_chat_server.World.{World, ◌>>=◌}
use lite_chat_server.Friends.{cache_friend_list}
use lite_chat_server.Messages.{push_if_any, push_offline_messages}
use lite_chat_server.Sessions.Removal.{add_session-IsLinked}
use lite_chat_server.Users.Counting.{IsCounted}
use lite_chat_server.Server.Connections.{
  accept_connection, admit, failed, finish, handle_client, out_of_fuel,
}
use lite_chat_server.Server.Steps.{
  AllHaveSessions, HasSession, Reach, connections-counted, connects, happens, here,
  name_lookup_sound, next, speaks, started,
}
use lite_chat_server.Sessions.{
  ClientSession, SessionManager, add_session, bind_username, get_session, get_session_by_username,
  new_session, no_sessions, set_username, write_session,
}
use lite_chat_server.Users.{
  attach_session, complete_login, handle_login, hex_bytes, md5_encrypt, notify_each,
  notify_friends_status_change, validate_username,
}
use lite_chat_server.Server.Dispatch.{
  answer, dispatch_request, kind_of, login_and_push, serve_request, session_name,
}
use lite_chat_server.Server.Parsing.{claim_session, read_count, read_head, read_request, read_text}
use lite_chat_server.UserDao.{
  get_friends_of_user, get_user_by_username, get_user_id_by_username, get_user_online_status,
  update_last_login_time, update_online_status,
}
use lite_chat_server.World.Statement.{execute_query, execute_update}
use lite_chat_server.FriendDao.{get_friend_list}
use lite_chat_server.MessageDao.{get_unread_messages, joined}
use lite_chat_server.Wire.{package_message, send_data, send_loop, send_some}
use lite_chat_server.Server.Expiry.{finish-sessions, heartbeat_check-sessions, survivor}
use lite_chat_server.Protocol.{Request}
use lite_chat_server.Server.Termination.{handle_client-ends}
use lite_chat_server.Server.Heartbeat.{heartbeat_check}
use lite_chat_server.Sessions.Linked.{IsLinked, no_sessions-IsLinked}

-- A host with a bytewise collation, a constant digest, and a parser that knows one document.
abbrev digest : Str → Str
digest s = replicate 16 171

abbrev field_of : Fields → Str → Json
field_of end key = null
field_of (field name value rest) key = if name == key then value else field_of rest key

abbrev member_of : Json → Str → Option Json
member_of (obj fields) key = some (field_of fields key)
member_of null key = some null
member_of value key = none

abbrev text_of : Json → Option Str
text_of (str s) = some s
text_of null = some []
text_of value = none

abbrev is_there : Json → Bool
is_there null = false
is_there value = true

abbrev has_member : Json → Str → Option Bool
has_member (obj fields) key = some (is_there (field_of fields key))
has_member null key = some false
has_member value key = none

abbrev alice : Str
alice = lit "alice"

abbrev secret : Str
secret = lit "secret"

abbrev login_json : Json
login_json = obj (
    field (lit "type") (str (lit "LOGIN"))
      (field (lit "username") (str alice) (field (lit "password") (str secret) end)))

instance abbrev test_host : Host
test_host = record {
  collate = str_beq;
  collate_refl = λ s. (str_beq_iff s s).1 refl;
  collate_sym = λ s t e. (str_beq_iff t s).1 (sym ((str_beq_iff s t).0 e));
  collate_trans = λ s t u e f. (str_beq_iff s u).1 ((str_beq_iff s t).0 e ∙ (str_beq_iff t u).0 f);
  md5 = digest;
  md5_length = λ s. refl;
  write_json = λ value. lit "{}";
  parse_json = λ text. if text == lit "{}" then some login_json else none;
  member = member_of;
  is_member = has_member;
  as_string = text_of;
  as_int = λ value. some (pos 7);
  datetime_text = λ time. lit "2025-01-01 00:00:00";
  indeterminate = pos 0;
}

-- The tables know alice.
abbrev one_user : Database
one_user = record empty_database {
  users =
      record {
        user_id = 1;
        username = alice;
        password_hash = hex_bytes (digest secret);
        is_online = false;
        last_login_time = none;
      }
      ∷ [];
  next_user = 2;
}

abbrev fresh_world : World
fresh_world = started one_user 1000 [] []

-- A client on socket 5 that has said nothing yet.
abbrev connected : World
connected = (accept_connection 5 (lit "10.0.0.1") 4000 fresh_world).1

abbrev newcomer : ClientSession
newcomer = new_session 1000 5 (lit "10.0.0.1") 4000

-- It logs in.
abbrev logged_in : World
logged_in = (dispatch_request 5 (lit "{}") connected).1

connected-Reach : Reach fresh_world connected
unfolding lookup
connected-Reach = next here (happens (connects 5 (lit "10.0.0.1") 4000 refl))

logged_in-Reach : Reach fresh_world logged_in
logged_in-Reach = next connected-Reach (speaks 5 (lit "{}"))

logged_in-AllHaveSessions : AllHaveSessions logged_in-Reach
unfolding AllHaveSessions HasSession logged_in-Reach connected-Reach lookup accept_connection admit
    insert ◌>>=◌ add_session
logged_in-AllHaveSessions = ((tt, tt), (newcomer, refl))

connections-counted_example : IsCounted logged_in.sessions logged_in.current_connections
connections-counted_example = connections-counted one_user 1000 [] [] logged_in logged_in-Reach

login_works : get_session_by_username alice logged_in.sessions ≡ some (set_username alice newcomer)
unfolding lookup insert modify get_session_by_username dispatch_request read_head read_request
    read_text read_count serve_request session_name claim_session answer kind_of login_and_push
    handle_login validate_username get_user_by_username execute_query user_named md5_encrypt
    complete_login get_user_online_status user_with_id update_online_status execute_update
    set_online update_last_login_time set_login_time attach_session get_session write_session
    bind_username notify_friends_status_change get_user_id_by_username get_friends_of_user
    friends_of notify_each cache_friend_list get_friend_list push_offline_messages
    get_unread_messages joined unread_rows by_time push_if_any send_data send_loop send_some
    package_message accept_connection admit add_session ◌>>=◌ lit
login_works = refl

name_lookup_sound_example :
    ((set_username alice newcomer).username ≡ alice)
    × (get_session 5 logged_in.sessions ≡ some (set_username alice newcomer))
    × (lookup alice logged_in.sessions.username_to_socket ≡ some 5)
name_lookup_sound_example =
    name_lookup_sound one_user 1000 [] [] logged_in alice (set_username alice newcomer)
      logged_in-Reach logged_in-AllHaveSessions login_works

abbrev login_request : Request
login_request = record {
  type = lit "LOGIN";
  username = alice;
  password = secret;
  new_username = [];
  new_password = [];
  verify_password = secret;
  target_username = [];
  content = [];
  count = pos 0;
  client_socket = 5;
}

heartbeat_check-sessions_example :
    get_session 5 (heartbeat_check logged_in).1.sessions
    ≡ survivor logged_in.now (get_session 5 logged_in.sessions) (get_session 5 logged_in.sessions)
heartbeat_check-sessions_example =
    heartbeat_check-sessions logged_in 5 connections-counted_example.distinct

finish-sessions_example : get_session 5 (finish 5 failed logged_in).1.sessions ≡ none
finish-sessions_example = finish-sessions 5 5 failed logged_in

handle_client-ends_example :
    (handle_client (λ call. []) 5 (package_message (lit "{}") ∷ []) connected).0 ≢ out_of_fuel
handle_client-ends_example =
    handle_client-ends (λ call. []) 5 (package_message (lit "{}") ∷ []) connected

-- Two users, and a request from alice to bob.
abbrev two_users : World
two_users = record connected {
  db = record one_user {
    users =
        one_user.users
        ++ record {
          user_id = 2;
          username = lit "bob";
          password_hash = hex_bytes (digest secret);
          is_online = false;
          last_login_time = none;
        }
          ∷ [];
    next_user = 3;
  };
}

abbrev to_bob : Request
to_bob = record login_request { target_username = lit "bob"; content = lit "hello" }

-- The first login of alice.
abbrev one_session : SessionManager
one_session = record { cli_session_map = (5, newcomer) ∷ []; username_to_socket = [] }

abbrev visited : World
visited = record fresh_world { sessions = one_session; current_connections = 1 }

one_session-IsLinked : IsLinked one_session
unfolding lookup add_session insert
one_session-IsLinked =
    add_session-IsLinked no_sessions 5 newcomer refl refl refl no_sessions-IsLinked
