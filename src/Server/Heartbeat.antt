-- ===== src/Server/Heartbeat.antt =====
-- HeartbeatCheckThread: one round, every 30 seconds.
use lite_chat_server.Common.{Bool, List, [], is_empty, ltb, not, ℕ, ◌&&◌, ◌-◌, ◌∷◌}
use lite_chat_server.Host.{Host}
use lite_chat_server.World.{M, gets, pure, update, when, ◌>>=◌, ◌>>◌}
use lite_chat_server.Sessions.{ClientSession, get_all_sessions}
use lite_chat_server.Server.Connections.{drop_session, shutdown_socket, sign_off}

-- IsConnected, a name, and more than 10 minutes of silence
unfoldable pub timed_out : ℕ → ClientSession → Bool
timed_out now session =
    session.is_connected
    && not (is_empty session.username)
    && ltb 600 (now - session.last_heartbeat)

module _ ⦃host : Host⦄ where
  unfoldable pub expire : ℕ → ClientSession → M (Unit {0})
  expire socket session = do
    sign_off session.username
    update (shutdown_socket socket)
    drop_session socket

  unfoldable pub check_each : ℕ → List (ℕ × ClientSession) → M (Unit {0})
  check_each now [] = pure tt
  check_each now ((socket, session) ∷ sessions) =
      when (timed_out now session) (expire socket session) >> check_each now sessions

  unfoldable pub heartbeat_check : M (Unit {0})
  heartbeat_check = do
    sessions ← gets (λ w. get_all_sessions w.sessions)
    now ← gets (λ w. w.now)
    check_each now sessions
