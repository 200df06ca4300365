-- ===== src/Server/OwnTable.antt =====
-- AddSession, RemoveSession, GetSession and GetSessionByUsername of the class Server. They use the
-- session manager if there is one, and a table of the server's own if not.
use lite_chat_server.Common.{
  List, Option, Str, [], erase, insert, lookup, none, nat_eq, refl, some, str_eq, ℕ, ◌==◌, ◌∷◌, ◌≡◌,
  if◌then◌else◌,
}
use lite_chat_server.Sessions.{
  ClientSession, SessionManager, add_session, get_session, get_session_by_username, no_sessions,
  remove_session, unbind,
}

pub record ServerSessions : Type 0 where
  -- `none` is nullptr
  pub session_manager : Option SessionManager
  pub session_map : List (ℕ × ClientSession)

unfoldable pub server_add_session : ℕ → ClientSession → ServerSessions → ServerSessions
server_add_session socket session s = elim s.session_manager [
  | none ↦ record s { session_map = insert socket session s.session_map }
  | some m ↦ record s { session_manager = some (add_session socket session m) }
]

unfoldable pub server_remove_session : ℕ → ServerSessions → ServerSessions
server_remove_session socket s = elim s.session_manager [
  | none ↦ elim (lookup socket s.session_map) [
    | none ↦ s
    | some session ↦ record s { session_map = erase socket s.session_map }
  ]
  | some m ↦ record s { session_manager = some (remove_session socket m) }
]

unfoldable pub server_get_session : ℕ → ServerSessions → Option ClientSession
server_get_session socket s = elim s.session_manager [
  | none ↦ lookup socket s.session_map
  | some m ↦ get_session socket m
]

-- The first session of the table with this name. The order of an unordered_map is not fixed; here it
-- is that of the list.
abbrev pub find_named : Str → List (ℕ × ClientSession) → Option ClientSession
find_named username [] = none
find_named username ((socket, session) ∷ rest) =
    if session.username == username then some session else find_named username rest

unfoldable pub server_get_session_by_username : Str → ServerSessions → Option ClientSession
server_get_session_by_username username s = elim s.session_manager [
  | none ↦ find_named username s.session_map
  | some m ↦ get_session_by_username username m
]

-- A call that changes the sessions.
pub data Change : Type 0 where
  adds : ℕ → ClientSession → Change
  removes : ℕ → Change

abbrev pub change : Change → ServerSessions → ServerSessions
change (adds socket session) s = server_add_session socket session s
change (removes socket) s = server_remove_session socket s

abbrev pub change_each : List Change → ServerSessions → ServerSessions
change_each [] s = s
change_each (c ∷ changes) s = change_each changes (change c s)

change_each-same :
    (changes : List Change) (m : SessionManager) (socket : ℕ)
    → server_get_session socket
        (change_each changes (record { session_manager = none; session_map = m.cli_session_map }))
      ≡ server_get_session socket
          (change_each changes (record { session_manager = some m; session_map = [] }))
unfolding server_get_session server_add_session server_remove_session add_session remove_session
    get_session
change_each-same [] m socket = refl
change_each-same (adds s session ∷ changes) m socket =
    change_each-same changes (add_session s session m) socket
change_each-same (removes s ∷ changes) m socket =
    go (lookup s m.cli_session_map) (λ n. change_each-same changes n socket)
  where
    go :
        (found : Option ClientSession)
        → ((n : SessionManager)
            → server_get_session socket (
                change_each changes
                  (record { session_manager = none; session_map = n.cli_session_map }))
              ≡ server_get_session socket
                  (change_each changes (record { session_manager = some n; session_map = [] })))
        → server_get_session socket (
            change_each changes (elim found [
              | none ↦ record { session_manager = none; session_map = m.cli_session_map }
              | some session ↦ record {
                session_manager = none;
                session_map = erase s m.cli_session_map;
              }
            ]))
          ≡ server_get_session socket (
              change_each changes (record {
                session_manager = some (elim found [
                  | none ↦ m
                  | some session ↦ record {
                    cli_session_map = erase s m.cli_session_map;
                    username_to_socket = unbind session.username s m.username_to_socket;
                  }
                ]);
                session_map = [];
              }))
    go none again = again m
    go (some session) again = again (record {
      cli_session_map = erase s m.cli_session_map;
      username_to_socket = unbind session.username s m.username_to_socket;
    })

-- Whatever sessions are added and removed, the server without a session manager finds by a socket the
-- same session as with one.
pub server_get_session-same :
    (changes : List Change) (socket : ℕ)
    → server_get_session socket
        (change_each changes (record { session_manager = none; session_map = [] }))
      ≡ server_get_session socket
          (change_each changes (record { session_manager = some no_sessions; session_map = [] }))
server_get_session-same changes socket = change_each-same changes no_sessions socket
