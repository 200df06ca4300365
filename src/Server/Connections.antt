-- ===== src/Server/Connections.antt =====
-- AcceptConnections for one client, HandleClient and Stop.
use lite_chat_server.Common.{
  Bool, List, Str, [], false, if◌then◌else◌, is_empty, leb, length, lit, not, suc, true, zero, ℕ,
  ◌+◌, ◌-◌, ◌∷◌,
}
use lite_chat_server.Host.{Host}
use lite_chat_server.World.{M, World, gets, on_sessions, or_else, pure, update, when, ◌>>=◌, ◌>>◌}
use lite_chat_server.Sessions.{
  ClientSession, add_session, get_all_sessions, get_session, new_session, remove_session,
}
use lite_chat_server.Protocol.{max_connections, offline}
use lite_chat_server.Wire.{Stream, package_message, receive_data, send_some}
use lite_chat_server.Users.{notify_friends_status_change, update_user_online_status}
use lite_chat_server.Friends.{remove_friend_cache}
use lite_chat_server.Server.Dispatch.{dispatch_request}

unfoldable pub busy_text : Str
busy_text = lit "{\"type\":\"ERROR\",\"code\":5003,\"msg\":\"服务器繁忙\"}"

abbrev pub close_socket : ℕ → World → World
close_socket socket w = record w { closed = socket ∷ w.closed }

abbrev pub shutdown_socket : ℕ → World → World
shutdown_socket socket w = record w { shut = socket ∷ w.shut }

-- The server is busy: one call of send(), whose result is not looked at.
unfoldable pub refuse : ℕ → M Bool
refuse socket = do
  send_some socket (package_message busy_text)
  update (close_socket socket)
  pure false

unfoldable pub admit : ℕ → Str → ℕ → M Bool
admit socket ip port = do
  now ← gets (λ w. w.now)
  on_sessions (add_session socket (new_session now socket ip port))
  update (λ w. record w { current_connections = w.current_connections + 1 })
  pure true

-- One turn of the loop, for a client that accept() returned. True: a task was submitted for it.
unfoldable pub accept_connection : ℕ → Str → ℕ → M Bool
accept_connection socket ip port = do
  full ← gets (λ w. leb max_connections w.current_connections)
  if full then refuse socket else admit socket ip port

-- How HandleClient ends: by an empty read, by an exception, or because the server stops.
pub data Ending : Type 0 where
  left failed stopped out_of_fuel : Ending

-- sessionManager->RemoveSession(clientSocket); currentConnections--;
unfoldable pub drop_session : ℕ → M (Unit {0})
drop_session socket = do
  on_sessions (remove_session socket)
  update (λ w. record w { current_connections = w.current_connections - 1 })

-- Each message that is read takes at least one byte off the stream.
abbrev pub stream_size : Stream → ℕ
stream_size [] = 0
stream_size (chunk ∷ later) = length chunk + stream_size later

module _ ⦃host : Host⦄ where
  -- A user goes offline: the database, the friends, the cache.
  unfoldable pub sign_off : Str → M (Unit {0})
  sign_off username = do
    update_user_online_status username false
    notify_friends_status_change username offline
    remove_friend_cache username

  -- behind the loop
  unfoldable pub disconnect : ℕ → M (Unit {0})
  disconnect socket = do
    session ← gets (λ w. get_session socket w.sessions)
    (or_else session (pure tt)
        (λ s. (do when (not (is_empty s.username)) (sign_off s.username); drop_session socket)))
    update (close_socket socket)

  -- The log line is left out.
  abbrev pub handle_client_exception : ℕ → M (Unit {0})
  handle_client_exception socket = update (close_socket socket)

  -- the handler of std::exception
  unfoldable pub abandon : ℕ → M (Unit {0})
  abandon socket = do
    handle_client_exception socket
    session ← gets (λ w. get_session socket w.sessions)
    or_else session (pure tt) (λ s. (do
      when (not (is_empty s.username)) (do update_user_online_status s.username false; pure tt)
      drop_session socket))

  -- `while(running)`. `garbage` is what the array `header` of each call of ReceiveData holds before.
  -- The calls are numbered by the fuel.
  unfoldable pub client_loop : ℕ → (ℕ → Str) → ℕ → Stream → M Ending
  client_loop zero garbage socket stream = pure out_of_fuel
  client_loop (suc fuel) garbage socket stream = do
    running ← gets (λ w. w.running)
    elim running [
      | false ↦ pure stopped
      | true ↦
          let (text, later) = receive_data (garbage fuel) stream in
          elim text [
            | [] ↦ pure left
            | c ∷ body ↦ (do
              done ← dispatch_request socket (c ∷ body)
              or_else done (pure failed) (λ _. client_loop fuel garbage socket later))
          ]
    ]

  abbrev pub finish : ℕ → Ending → M (Unit {0})
  finish socket failed = abandon socket
  finish socket ending = disconnect socket

  unfoldable pub handle_client : (ℕ → Str) → ℕ → Stream → M Ending
  handle_client garbage socket stream = do
    ending ← client_loop (suc (stream_size stream)) garbage socket stream
    finish socket ending
    pure ending

  unfoldable pub stop_one : ClientSession → M (Unit {0})
  stop_one s = do
    when (not (is_empty s.username))
        (do update_user_online_status s.username false; remove_friend_cache s.username)
    update (shutdown_socket s.socket)

  -- for(auto& pair : sessions) of Stop
  unfoldable pub stop_each : List (ℕ × ClientSession) → M (Unit {0})
  stop_each [] = pure tt
  stop_each ((socket, s) ∷ sessions) = stop_one s >> stop_each sessions

  unfoldable pub stop : M (Unit {0})
  stop = do
    update (λ w. record w { running = false })
    sessions ← gets (λ w. get_all_sessions w.sessions)
    stop_each sessions
