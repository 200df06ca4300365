-- ===== src/Sessions.antt =====
-- connection/client_session.cpp and system/session_manager.cpp: the sessions of the connected
-- clients, and the table from user names to sockets. A `ClientSession*` is the entry of its socket:
-- what the program writes through the pointer, it writes to that entry.
pub mod Linked
pub mod Removal
pub mod Login
use lite_chat_server.Common.{
  Bool, List, Option, Str, [], erase, if◌then◌else◌, insert, is_empty, length, lookup, modify, none,
  some, true, ℕ, ◌==◌, nat_eq, str_eq,
}

pub record ClientSession : Type 0 where
  pub socket : ℕ
  pub ip : Str
  pub port : ℕ
  pub username : Str
  pub last_heartbeat : ℕ
  pub is_connected : Bool

-- ClientSession(socket, ip, port), at the time `now`
abbrev pub new_session : ℕ → ℕ → Str → ℕ → ClientSession
new_session now socket ip port = record {
  socket = socket;
  ip = ip;
  port = port;
  username = [];
  last_heartbeat = now;
  is_connected = true;
}

abbrev pub set_username : Str → ClientSession → ClientSession
set_username username session = record session { username = username }

abbrev pub update_heartbeat : ℕ → ClientSession → ClientSession
update_heartbeat now session = record session { last_heartbeat = now }

abbrev pub set_is_connected : Bool → ClientSession → ClientSession
set_is_connected connected session = record session { is_connected = connected }

pub record SessionManager : Type 0 where
  pub cli_session_map : List (ℕ × ClientSession)
  pub username_to_socket : List (Str × ℕ)

abbrev pub no_sessions : SessionManager
no_sessions = record { cli_session_map = []; username_to_socket = [] }

unfoldable pub add_session : ℕ → ClientSession → SessionManager → SessionManager
add_session socket session m = record {
  cli_session_map = insert socket session m.cli_session_map;
  username_to_socket =
      if is_empty session.username
      then m.username_to_socket
      else insert session.username socket m.username_to_socket;
}

-- The name goes only if the table sends it to this very socket.
pub unbind : Str → ℕ → List (Str × ℕ) → List (Str × ℕ)
unbind username socket names = if is_empty username then names else elim (lookup username names) [
  | none ↦ names
  | some bound ↦ if bound == socket then erase username names else names
]

unfoldable pub remove_session : ℕ → SessionManager → SessionManager
remove_session socket m = elim (lookup socket m.cli_session_map) [
  | none ↦ m
  | some session ↦ record {
    cli_session_map = erase socket m.cli_session_map;
    username_to_socket = unbind session.username socket m.username_to_socket;
  }
]

unfoldable pub get_session : ℕ → SessionManager → Option ClientSession
get_session socket m = lookup socket m.cli_session_map

unfoldable pub get_session_by_username : Str → SessionManager → Option ClientSession
get_session_by_username username m = elim (lookup username m.username_to_socket) [
  | none ↦ none
  | some socket ↦ lookup socket m.cli_session_map
]

unfoldable pub bind_username : ℕ → Str → SessionManager → SessionManager
bind_username socket username m = record m {
  username_to_socket = insert username socket m.username_to_socket;
}

abbrev pub get_all_sessions : SessionManager → List (ℕ × ClientSession)
get_all_sessions m = m.cli_session_map

unfoldable pub get_online_user_count : SessionManager → ℕ
get_online_user_count m = length m.username_to_socket

-- A write through the `ClientSession*` of this socket.
unfoldable pub write_session : ℕ → (ClientSession → ClientSession) → SessionManager → SessionManager
write_session socket f m = record m { cli_session_map = modify socket f m.cli_session_map }
