-- ===== src/Server/Endings.antt =====
-- The ways in which a session ends, by its client, by an exception, by the heartbeat check, keep the
-- session tables sound and the connection counter right.
use lite_chat_server.Common.{
  Bool, KeysDistinct, List, Option, [], false, is_empty, lookup, lookup-erase_ne, lookup-head,
  lookup-tail, none, not, refl, some, true, ℕ, ◌∙◌, ◌∷◌, ◌≡◌, ◌≢◌, nat_eq, str_eq,
}
use lite_chat_server.Server.Safety.{IsClosed, IsSafe, dropped-IsSafe, sign_off-Q}
use lite_chat_server.Host.{Host}
use lite_chat_server.Sessions.{ClientSession, SessionManager, get_session, remove_session}
use lite_chat_server.World.{M, World, pure, update, when, ◌>>=◌, ◌>>◌}
use lite_chat_server.Server.Connections.{
  abandon, close_socket, disconnect, drop_session, shutdown_socket, sign_off, stop, stop_each,
  stop_one,
}
use lite_chat_server.World.Keeps.{
  Keeps, Keeps-pure, Keeps-then, Keeps-update, Leads, Leads-before, keeps_rules,
}
use lite_chat_server.World.Frame.{Invariant, OfRoom, On, room}
use lite_chat_server.Users.Frame.{user_status-Q}
use lite_chat_server.Users.{update_user_online_status}
use lite_chat_server.Server.Heartbeat.{check_each, expire, heartbeat_check, timed_out}
use lite_chat_server.Friends.Frame.{uncache-Q}
use lite_chat_server.Friends.{remove_friend_cache}

module _ (P : SessionManager → Type 0) (closed : IsClosed P) (Q : SessionManager → Type 0)
    (socket : ℕ) (session : ClientSession) where
  -- The session to be dropped, and what holds besides.
  abbrev At : SessionManager → ℕ → Type 0
  At m n = (lookup socket m.cli_session_map ≡ some session) × IsSafe P m n × Q m

  -- Whatever the goodbye meets, the session goes once and the counter with it.
  pub end_session :
      (goodbye : M (Unit {0}))
      → Keeps (OfRoom At) goodbye
      → ((m : SessionManager) → Q m → Q (remove_session socket m))
      → Leads (OfRoom At) (OfRoom (λ m n. IsSafe P m n × Q m)) (goodbye >> drop_session socket)
  unfolding drop_session ◌>>=◌
  end_session goodbye kept k =
      Leads-before goodbye (λ _. drop_session socket) kept
        λ _. record {
          to = λ w h. (
            dropped-IsSafe P closed socket w.current_connections session w.sessions h.0 h.1,
            k w.sessions h.2,
          );
        }

module _ ⦃host : Host⦄ (P : SessionManager → Type 0) (closed : IsClosed P) where
  -- A goodbye that touches no session.
  ends :
      (socket : ℕ) (session : ClientSession) (goodbye : M (Unit {0})) (w : World)
      → ((Q : SessionManager → ℕ → Type 0) → Keeps (OfRoom Q) goodbye)
      → lookup socket w.sessions.cli_session_map ≡ some session
      → OfRoom (IsSafe P) w
      → OfRoom (IsSafe P) ((goodbye >> drop_session socket) w).1
  ends socket session goodbye w kept e s =
      ((end_session P closed (λ _. Unit {0}) socket session goodbye (kept _) (λ m u. u)).to w
        (e, s, tt)).0

  pub disconnect-IsSafe : (socket : ℕ) → Keeps (OfRoom (IsSafe P)) (disconnect socket)
  unfolding disconnect get_session ◌>>=◌
  disconnect-IsSafe socket = record {
    at = λ w s. go w (lookup socket w.sessions.cli_session_map) refl s;
  }
    where
      go :
          (w : World) (o : Option ClientSession)
          → lookup socket w.sessions.cli_session_map ≡ o
          → OfRoom (IsSafe P) w
          → OfRoom (IsSafe P) (disconnect socket w).1
      go w none e s = rw (disconnect, get_session, e) s
      go w (some session) e s =
          rw (disconnect, get_session, e)
            (ends socket session
              (when (not (is_empty session.username)) (sign_off session.username)) w
              (λ Q. search (keeps_rules, sign_off-Q (room Q))) e s)

  pub abandon-IsSafe : (socket : ℕ) → Keeps (OfRoom (IsSafe P)) (abandon socket)
  unfolding abandon get_session ◌>>=◌
  abandon-IsSafe socket = record {
    at = λ w s. go w (lookup socket w.sessions.cli_session_map) refl s;
  }
    where
      go :
          (w : World) (o : Option ClientSession)
          → lookup socket w.sessions.cli_session_map ≡ o
          → OfRoom (IsSafe P) w
          → OfRoom (IsSafe P) (abandon socket w).1
      go w none e s = rw (abandon, get_session, e) s
      go w (some session) e s =
          rw (abandon, get_session, e)
            (ends socket session
              (when (not (is_empty session.username))
                (update_user_online_status session.username false >> pure tt))
              (close_socket socket w) (λ Q. search (keeps_rules, user_status-Q (room Q))) e s)

  -- The sessions that are still to be checked are there.
  abbrev Present : List (ℕ × ClientSession) → SessionManager → Type 0
  Present rest m =
      KeysDistinct rest
      × ((s : ℕ) (c : ClientSession)
          → lookup s rest ≡ some c
          → (d : ClientSession) × (lookup s m.cli_session_map ≡ some d))

  -- Dropping one session leaves the others.
  Present-remove :
      (socket : ℕ) (rest : List (ℕ × ClientSession)) (m : SessionManager)
      → lookup socket rest ≡ none
      → Present rest m
      → Present rest (remove_session socket m)
  unfolding remove_session
  Present-remove socket rest m gone (d, p) =
      (d, λ s c e. go s (p s c e) (λ same. cc) (lookup socket m.cli_session_map) refl)
    where
      go :
          (s : ℕ)
          → (d : ClientSession) × (lookup s m.cli_session_map ≡ some d)
          → socket ≢ s
          → (o : Option ClientSession) → lookup socket m.cli_session_map ≡ o
          → (d : ClientSession) × (lookup s (remove_session socket m).cli_session_map ≡ some d)
      go s (c, e) n none gone = rw (remove_session, gone) (c, e)
      go s (c, e) n (some x) found =
          rw (remove_session, found) (c, lookup-erase_ne socket s m.cli_session_map n ∙ e)

  -- A session that timed out goes, the ones behind it in the list stay.
  expire-Leads :
      (socket : ℕ) (session found : ClientSession) (rest : List (ℕ × ClientSession))
      → lookup socket rest ≡ none
      → Leads
          (OfRoom (At P closed (Present rest) socket found))
          (OfRoom (λ m n. IsSafe P m n × Present rest m))
          (expire socket session)
  unfolding expire
  expire-Leads socket session found rest gone =
      Leads-before (sign_off session.username) _ (sign_off-Q (room _) session.username) λ _.
        end_session P closed (Present rest) socket found (update (shutdown_socket socket))
          (Keeps-update (shutdown_socket socket) (λ w h. h))
          (λ m. Present-remove socket rest m gone)

  check_each-Leads :
      (now : ℕ) (rest : List (ℕ × ClientSession))
      → Leads
          (OfRoom (λ m n. IsSafe P m n × Present rest m))
          (OfRoom (IsSafe P))
          (check_each now rest)
  unfolding check_each ◌>>=◌
  check_each-Leads now [] = record { to = λ w h. h.0 }
  check_each-Leads now ((socket, session) ∷ rest) = record {
    to = λ w h.
        (check_each-Leads now rest).to (when (timed_out now session) (expire socket session) w).1
          (one (timed_out now session) w h);
  }
    where
      one :
          (late : Bool) (w : World)
          → OfRoom (λ m n. IsSafe P m n × Present ((socket, session) ∷ rest) m) w
          → OfRoom (λ m n. IsSafe P m n × Present rest m) (when late (expire socket session) w).1
      one false w (s, ((gone, d), p)) =
          (s, (d, λ k c e. p k c (lookup-tail socket k session c rest gone e)))
      one true w (s, ((gone, d), p)) =
          let (found, e) = p socket session (lookup-head socket session rest) in
          (expire-Leads socket session found rest gone).to w
            (e, s, (d, λ k c e. p k c (lookup-tail socket k session c rest gone e)))

  pub heartbeat_check-IsSafe : Keeps (OfRoom (IsSafe P)) heartbeat_check
  unfolding heartbeat_check ◌>>=◌
  heartbeat_check-IsSafe = record {
    at = λ w s.
        (check_each-Leads w.now w.sessions.cli_session_map).to w
          (s, (s.counted.distinct, λ k c e. (c, e)));
  }

module _ ⦃host : Host⦄ where
  stop_one-Q : (v : Invariant) (s : ClientSession) → Keeps (On v.R) (stop_one s)
  unfolding stop_one
  stop_one-Q v s =
      Keeps-then
        (when (not (is_empty s.username))
          (update_user_online_status s.username false >> remove_friend_cache s.username))
        (update (shutdown_socket s.socket))
        (search (keeps_rules, user_status-Q v, uncache-Q v) depth 9)
        (Keeps-update (shutdown_socket s.socket) (λ w h. h))

  stop_each-Q :
      (v : Invariant) (sessions : List (ℕ × ClientSession)) → Keeps (On v.R) (stop_each sessions)
  unfolding stop_each
  stop_each-Q v [] = Keeps-pure tt
  stop_each-Q v ((socket, s) ∷ sessions) =
      Keeps-then (stop_one s) (stop_each sessions) (stop_one-Q v s) (stop_each-Q v sessions)

  pub stop-Q : (v : Invariant) → Keeps (On v.R) stop
  unfolding stop
  stop-Q v =
      Keeps-then (update _) _ (Keeps-update _ (λ w h. h)) (search (keeps_rules, stop_each-Q v))
