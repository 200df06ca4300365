-- ===== src/Server/Expiry.antt =====
-- Which sessions a round of the heartbeat check leaves, and which the end of a client.
use lite_chat_server.Common.{
  Bool, KeysDistinct, List, Option, [], ap, arith, false, if◌then◌else◌, is_empty, lookup,
  lookup-erase, nat_eq, none, not, refl, some, sym, true, ℕ, ◌&&◌, ◌==◌, ◌∙◌, ◌∷◌, ◌≡◌, str_eq,
}
use lite_chat_server.Host.{Host}
use lite_chat_server.Sessions.{ClientSession, SessionManager, get_session, remove_session}
use lite_chat_server.World.{M, World, pure, when, ◌>>=◌, ◌>>◌}
use lite_chat_server.Server.Heartbeat.{check_each, expire, heartbeat_check, timed_out}
use lite_chat_server.Server.Safety.{sign_off-Q}
use lite_chat_server.Server.Connections.{
  Ending, abandon, close_socket, disconnect, drop_session, failed, finish, left, out_of_fuel,
  sign_off, stopped,
}
use lite_chat_server.World.Keeps.{Keeps, keeps_rules}
use lite_chat_server.Users.{update_user_online_status}
use lite_chat_server.Users.Frame.{user_status-Q}
use lite_chat_server.World.Frame.{OfRoom, room}

pub lookup-remove_session :
    (k s : ℕ) (m : SessionManager)
    → lookup s (remove_session k m).cli_session_map
      ≡ (if k == s then none else lookup s m.cli_session_map)
unfolding remove_session
lookup-remove_session k s m = go (lookup k m.cli_session_map) refl
  where
    go :
        (o : Option ClientSession)
        → lookup k m.cli_session_map ≡ o
        → lookup s (remove_session k m).cli_session_map
          ≡ (if k == s then none else lookup s m.cli_session_map)
    go none e = rw (remove_session, e) (ground (arith, e))
    go (some c) e = rw (remove_session, e) (lookup-erase k s m.cli_session_map)

module _ ⦃host : Host⦄ where
  -- Behind the goodbye, which leaves the sessions alone, one session goes.
  expire-sessions :
      (socket : ℕ) (session : ClientSession) (w : World)
      → (expire socket session w).1.sessions ≡ remove_session socket w.sessions
  unfolding expire drop_session ◌>>=◌
  expire-sessions socket session w =
      ap (remove_session socket)
        ((sign_off-Q (room (λ m _. m ≡ w.sessions)) session.username).at w refl)

  checked-lookup :
      (late : Bool) (k s : ℕ) (session : ClientSession) (w : World)
      → lookup s (when late (expire k session) w).1.sessions.cli_session_map
        ≡ (if late && k == s then none else lookup s w.sessions.cli_session_map)
  unfolding pure
  checked-lookup false k s session w = refl
  checked-lookup true k s session w =
      ap (λ (m : SessionManager). lookup s m.cli_session_map) (expire-sessions k session w)
      ∙ lookup-remove_session k s w.sessions

  -- What becomes of a session, by what the list of the round holds for its socket.
  abbrev pub survivor : ℕ → Option ClientSession → Option ClientSession → Option ClientSession
  survivor now none o = o
  survivor now (some listed) o = if timed_out now listed then none else o

  survives :
      (now : ℕ) (session : ClientSession) (this late : Bool)
      (listed rest before : Option ClientSession)
      → timed_out now session ≡ late
      → (this ≡ true → listed ≡ none)
      → rest ≡ (if late && this then none else before)
      → survivor now listed rest ≡ survivor now (if this then some session else listed) before
  survives now session true true listed rest before e g h = simp (g refl, e) h
  survives now session true false listed rest before e g h = simp (g refl, e) h
  survives now session false true listed rest before e g h = ap (survivor now listed) h
  survives now session false false listed rest before e g h = ap (survivor now listed) h

  check_each-lookup :
      (now s : ℕ) (rest : List (ℕ × ClientSession)) (w : World)
      → KeysDistinct rest
      → lookup s (check_each now rest w).1.sessions.cli_session_map
        ≡ survivor now (lookup s rest) (lookup s w.sessions.cli_session_map)
  unfolding check_each ◌>>=◌ lookup
  check_each-lookup now s [] w d = refl
  check_each-lookup now s ((k, session) ∷ rest) w (gone, d) =
      check_each-lookup now s rest (when (timed_out now session) (expire k session) w).1 d
      ∙ survives now session (k == s) (timed_out now session) _ _ _ refl
          (λ same. ap (λ j. lookup j rest) (sym ((nat_eq.beq_iff k s).0 same)) ∙ gone)
          (checked-lookup (timed_out now session) k s session w)

  -- What a round of the heartbeat check does to the sessions: those that timed out, as `timed_out`
  -- has it of the time of the round, are gone, and every other session is what it was, whatever the
  -- database and the network answer. The sessions are stored once each.
  pub heartbeat_check-sessions :
      (w : World) (s : ℕ)
      → KeysDistinct w.sessions.cli_session_map
      → get_session s (heartbeat_check w).1.sessions
        ≡ survivor w.now (get_session s w.sessions) (get_session s w.sessions)
  unfolding heartbeat_check ◌>>=◌ get_session
  heartbeat_check-sessions w s d = check_each-lookup w.now s w.sessions.cli_session_map w d

  -- A goodbye that touches no session, and the session goes.
  left-sessions :
      (socket : ℕ) (goodbye : M (Unit {0})) (w : World)
      → ((Q : SessionManager → ℕ → Type 0) → Keeps (OfRoom Q) goodbye)
      → ((goodbye >> drop_session socket) w).1.sessions ≡ remove_session socket w.sessions
  unfolding drop_session ◌>>=◌
  left-sessions socket goodbye w kept =
      ap (remove_session socket) ((kept (λ m _. m ≡ w.sessions)).at w refl)

  disconnect-sessions :
      (socket : ℕ) (w : World) → (disconnect socket w).1.sessions ≡ remove_session socket w.sessions
  unfolding disconnect get_session remove_session ◌>>=◌
  disconnect-sessions socket w = go (lookup socket w.sessions.cli_session_map) refl
    where
      go :
          (o : Option ClientSession)
          → lookup socket w.sessions.cli_session_map ≡ o
          → (disconnect socket w).1.sessions ≡ remove_session socket w.sessions
      go none e = rw (disconnect, get_session, remove_session, e) refl
      go (some session) e =
          rw (disconnect, get_session, e)
            (left-sessions socket
              (when (not (is_empty session.username)) (sign_off session.username)) w
              (λ Q. search (keeps_rules, sign_off-Q (room Q))))

  abandon-sessions :
      (socket : ℕ) (w : World) → (abandon socket w).1.sessions ≡ remove_session socket w.sessions
  unfolding abandon get_session remove_session ◌>>=◌
  abandon-sessions socket w = go (lookup socket w.sessions.cli_session_map) refl
    where
      go :
          (o : Option ClientSession)
          → lookup socket w.sessions.cli_session_map ≡ o
          → (abandon socket w).1.sessions ≡ remove_session socket w.sessions
      go none e = rw (abandon, get_session, remove_session, e) refl
      go (some session) e =
          rw (abandon, get_session, e)
            (left-sessions socket
              (when (not (is_empty session.username))
                (update_user_online_status session.username false >> pure tt))
              (close_socket socket w) (λ Q. search (keeps_rules, user_status-Q (room Q))))

  -- How HandleClient ends a client, by the loop's end or by an exception: the socket has no session
  -- any more, every other session is what it was, whatever the database and the network answer.
  pub finish-sessions :
      (socket s : ℕ) (ending : Ending) (w : World)
      → get_session s (finish socket ending w).1.sessions
        ≡ (if socket == s then none else get_session s w.sessions)
  unfolding get_session
  finish-sessions socket s ending w =
      ap (λ (m : SessionManager). lookup s m.cli_session_map) (go ending)
      ∙ lookup-remove_session socket s w.sessions
    where
      go :
          (ending : Ending) → (finish socket ending w).1.sessions ≡ remove_session socket w.sessions
      go left = disconnect-sessions socket w
      go failed = abandon-sessions socket w
      go stopped = disconnect-sessions socket w
      go out_of_fuel = disconnect-sessions socket w
