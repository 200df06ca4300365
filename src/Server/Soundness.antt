-- ===== src/Server/Soundness.antt =====
-- Serving a request leaves the session tables sound, whatever the database and the network answer.
use lite_chat_server.Common.{
  Str, [], arith, lookup, lookup-modify_self, none, refl, some, subst, sym, ℕ, ◌∙◌, ◌≡◌, ◌≢◌, ◌⊎◌,
  nat_eq, str_eq,
}
use lite_chat_server.Host.{Host}
use lite_chat_server.Sessions.{
  ClientSession, SessionManager, get_session, update_heartbeat, write_session,
}
use lite_chat_server.Server.Dispatch.{
  Kind, add_friend, answer, del_friend, dispatch_request, friend_list, friend_status, heartbeat,
  history_msg, kind_of, login, login_and_push, query_friend, query_status, register, send_msg,
  serve_request, session_name, unknown, update_user,
}
use lite_chat_server.Sessions.Linked.{IsSound, write_session-IsSound}
use lite_chat_server.Users.Soundness.{IsReady, login-Ready}
use lite_chat_server.Server.Parsing.{claim_session, read_head, read_request}
use lite_chat_server.Protocol.{Request}
use lite_chat_server.World.Keeps.{
  Keeps, Keeps-bind, Keeps-gets, Keeps-or_else, Keeps-or_else-some, Keeps-pure, Keeps-then,
  Keeps-update, keeps_rules,
}
use lite_chat_server.World.Frame.{Invariant, OfSessions, On, room, send_data-Keeps}
use lite_chat_server.Users.Frame.{query_status-Q, register-Q, update_user-Q}
use lite_chat_server.Friends.Frame.{
  add_friend-Q, cache_friends-Q, delete_friend-Q, friend_list-Q, friend_status-Q, query_friend-Q,
}
use lite_chat_server.Messages.Frame.{history-Q, push_offline-Q, send_message-Q}
use lite_chat_server.Json.{Json}
use lite_chat_server.World.{World, ◌>>=◌}

-- The tables are sound, and the client on socket `s` has a session.
pub record IsServed (s : ℕ) (m : SessionManager) : Type 0 where
  pub sound : IsSound m
  pub session : ClientSession
  pub at : lookup s m.cli_session_map ≡ some session

IsReady-IsServed : {u : Str} {s : ℕ} {m : SessionManager} → IsReady u s m → IsServed s m
IsReady-IsServed r = record { sound = r.sound; session = r.client.session; at = r.client.at }

module _ ⦃host : Host⦄ where
  login_and_push-Ready :
      (request : Request)
      → Keeps (OfSessions (IsReady request.username request.client_socket)) (login_and_push request)
  unfolding login_and_push
  login_and_push-Ready request =
      let Q : SessionManager → ℕ → Type 0 =
        λ m _. IsReady request.username request.client_socket m in
      Keeps-bind _ _ (login-Ready request)
        λ response. search (keeps_rules, cache_friends-Q (room Q), push_offline-Q (room Q)) depth 9

  -- Every handler but the login's leaves the sessions alone.
  pub answer-Q :
      (v : Invariant) (kind : Kind) (request : Request)
      → kind ≢ login
      → Keeps (On v.R) (answer kind request)
  unfolding answer
  answer-Q v register request n = register-Q v request
  answer-Q v login request n = absurd (n refl)
  answer-Q v update_user request n = update_user-Q v request
  answer-Q v query_status request n = query_status-Q v request
  answer-Q v add_friend request n = add_friend-Q v request
  answer-Q v del_friend request n = delete_friend-Q v request
  answer-Q v friend_list request n = friend_list-Q v request
  answer-Q v friend_status request n = friend_status-Q v request
  answer-Q v query_friend request n = query_friend-Q v request
  answer-Q v send_msg request n = send_message-Q v request
  answer-Q v history_msg request n = history-Q v request
  answer-Q v heartbeat request n = Keeps-pure _
  answer-Q v unknown request n = Keeps-pure _

  -- A client with a name acts under that name, so that a login finds it vacant or its own.
  pub claim_session-vacant :
      (request : Request) (session : ClientSession)
      → (session.username ≡ [])
        ⊎ (session.username ≡ (claim_session session.username request).username)
  unfolding claim_session
  claim_session-vacant request session = ground arith

  pub claim_session-socket :
      (name : Str) (request : Request)
      → (claim_session name request).client_socket ≡ request.client_socket
  unfolding claim_session
  claim_session-socket name request = ground arith

  -- The request that is read carries the socket that it came from.
  pub read_request-socket :
      (type : Str) (socket : ℕ) (node : Json) (request : Request)
      → read_request type socket node ≡ some request
      → request.client_socket ≡ socket
  unfolding read_request
  read_request-socket type socket node request h = ground arith

  login-IsServed :
      (request : Request) (w : World)
      → IsServed request.client_socket w.sessions
      → ((session : ClientSession)
          → lookup request.client_socket w.sessions.cli_session_map ≡ some session
          → (session.username ≡ []) ⊎ (session.username ≡ request.username))
      → IsServed request.client_socket (login_and_push request w).1.sessions
  login-IsServed request w served vacant = IsReady-IsServed (
      (login_and_push-Ready request).at w (record {
        sound = served.sound;
        client = record {
          session = served.session;
          at = served.at;
          vacant = vacant served.session served.at;
        };
      }))

  answer-IsServed :
      (kind : Kind) (request : Request) (w : World)
      → IsServed request.client_socket w.sessions
      → ((session : ClientSession)
          → lookup request.client_socket w.sessions.cli_session_map ≡ some session
          → (session.username ≡ []) ⊎ (session.username ≡ request.username))
      → IsServed request.client_socket (answer kind request w).1.sessions
  unfolding answer
  answer-IsServed login request w served vacant = login-IsServed request w served vacant
  answer-IsServed register request w served vacant =
      (answer-Q (room (λ m _. IsServed request.client_socket m)) register request (λ e. cc)).at w
        served
  answer-IsServed kind request w served vacant =
      (answer-Q (room (λ m _. IsServed request.client_socket m)) kind request (λ e. cc)).at w served

  -- The name that a request is served under is that of the client's session.
  claimed :
      (socket : ℕ) (request : Request) (w : World) (session : ClientSession)
      → lookup socket w.sessions.cli_session_map ≡ some session
      → (session.username ≡ [])
        ⊎ (session.username ≡ (claim_session (session_name socket w) request).username)
  unfolding session_name get_session
  claimed socket request w session e = rw (session_name, e) (claim_session-vacant request session)

  pub serve_request-IsServed :
      (socket : ℕ) (request : Request)
      → request.client_socket ≡ socket
      → Keeps (OfSessions (IsServed socket)) (serve_request socket request)
  unfolding serve_request ◌>>=◌
  serve_request-IsServed socket request own = record {
    at = λ w served.
        let name = session_name socket w in
        let request' = claim_session name request in
        let e : request'.client_socket ≡ socket = claim_session-socket name request ∙ own in
        (send_data-Keeps (λ m _ _. IsServed socket m) socket _).at
          (answer (kind_of request.type) request' w).1
          (subst (λ t. IsServed t (answer (kind_of request.type) request' w).1.sessions) e
            (answer-IsServed (kind_of request.type) request' w
              (subst (λ t. IsServed t w.sessions) (sym e) served)
              (λ session h.
                claimed socket request w session
                  (subst (λ t. lookup t w.sessions.cli_session_map ≡ some session) e h))));
  }

  heard-IsServed :
      (socket now : ℕ) (m : SessionManager)
      → IsServed socket m
      → IsServed socket (write_session socket (update_heartbeat now) m)
  heard-IsServed socket now m served = record {
    sound = write_session-IsSound m socket (update_heartbeat now) (λ c. (refl, refl)) served.sound;
    session = update_heartbeat now served.session;
    at = heard;
  }
    where
      heard :
          lookup socket (write_session socket (update_heartbeat now) m).cli_session_map
          ≡ some (update_heartbeat now served.session)
      heard =
          unfold write_session in
          lookup-modify_self socket (update_heartbeat now) m.cli_session_map served.session
            served.at

  -- One message of a client, whatever its bytes, leaves the tables sound and the client its session.
  pub dispatch_request-IsServed :
      (socket : ℕ) (text : Str)
      → Keeps (OfSessions (IsServed socket)) (dispatch_request socket text)
  unfolding dispatch_request
  dispatch_request-IsServed socket text =
      Keeps-or_else (host.parse_json text) _ _
        (search (keeps_rules, send_data-Keeps (λ m _ _. IsServed socket m)))
        λ root. Keeps-or_else (read_head root) _ _ (Keeps-pure none) λ head.
          Keeps-bind _ _ (Keeps-gets _) λ now.
            Keeps-then _ _
              (Keeps-update _ (λ w served. heard-IsServed socket now w.sessions served))
              (Keeps-or_else-some (read_request head.0 socket head.1) _ _ (Keeps-pure none)
                λ request read.
                  serve_request-IsServed socket request
                    (read_request-socket head.0 socket head.1 request read))
