-- ===== src/Users/Steady.antt =====
-- What the actions of the user manager keep that write to sessions.
use lite_chat_server.Common.{Str, ℕ, ◌∷◌}
use lite_chat_server.Host.{Host}
use lite_chat_server.Sessions.{
  ClientSession, bind_username, set_username, update_heartbeat, write_session,
}
use lite_chat_server.Users.{attach_session, complete_login, force_offline, handle_login, kick}
use lite_chat_server.World.Keeps.{Keeps, Keeps-update, keeps_rules}
use lite_chat_server.World.Frame.{On, Steady, send_data-Keeps}
use lite_chat_server.Protocol.{Request}
use lite_chat_server.Users.Frame.{get_user-Q, login_time-Q, notify-Q, set_status-Q, status-Q}
use lite_chat_server.World.{on_sessions, update}

module _ ⦃host : Host⦄ (v : Steady) where
  write-Steady :
      (s : ℕ) (f : ClientSession → ClientSession) → Keeps (On v.R) (on_sessions (write_session s f))
  write-Steady s f = Keeps-update _ (λ w h. v.written s f h)

  attached-Steady :
      (s now : ℕ) (u : Str)
      → Keeps (On v.R) (
          on_sessions (λ m.
            write_session s
              (update_heartbeat now)
              (bind_username s u (write_session s (set_username u) m))))
  attached-Steady s now u =
      Keeps-update _
        λ w h. v.written s (update_heartbeat now) (v.bound s u (v.written s (set_username u) h))

  shut-Steady : (s : ℕ) → Keeps (On v.R) (update (λ w. record w { shut = s ∷ w.shut }))
  shut-Steady s = Keeps-update _ (λ w c. c)

  kick-Steady : (old : ClientSession) → Keeps (On v.R) (kick old)
  unfolding kick
  kick-Steady old = search (keeps_rules, send_data-Keeps v.R, write-Steady, shut-Steady) depth 9

  force-Steady : (id : ℕ) (u : Str) → Keeps (On v.R) (force_offline id u)
  unfolding force_offline
  force-Steady id u = search (keeps_rules, set_status-Q v.invariant, kick-Steady) depth 9

  attach-Steady : (s : ℕ) (u : Str) → Keeps (On v.R) (attach_session s u)
  unfolding attach_session
  attach-Steady s u = search (keeps_rules, attached-Steady) depth 9

  complete-Steady : (id : ℕ) (request : Request) → Keeps (On v.R) (complete_login id request)
  unfolding complete_login
  complete-Steady id request =
      search
        (
          keeps_rules,
          status-Q v.invariant,
          force-Steady,
          set_status-Q v.invariant,
          login_time-Q v.invariant,
          attach-Steady,
          notify-Q v.invariant,
        )
        depth 12

  pub login-Steady : (request : Request) → Keeps (On v.R) (handle_login request)
  unfolding handle_login
  login-Steady request = search (keeps_rules, get_user-Q v.invariant, complete-Steady) depth 9
