-- ===== src/Server/Serving.antt =====
-- What serving a message keeps.
use lite_chat_server.Common.{Str, ℕ}
use lite_chat_server.Host.{Host}
use lite_chat_server.Sessions.{update_heartbeat, write_session}
use lite_chat_server.Server.Dispatch.{
  Kind, answer, dispatch_request, login, login_and_push, register, serve_request,
}
use lite_chat_server.Protocol.{Request}
use lite_chat_server.World.Keeps.{Keeps, Keeps-bind, Keeps-update, keeps_rules}
use lite_chat_server.World.Frame.{On, Steady, send_data-Keeps}
use lite_chat_server.Friends.Frame.{cache_friends-Q}
use lite_chat_server.Messages.Frame.{push_offline-Q}
use lite_chat_server.World.{on_sessions}
use lite_chat_server.Users.Steady.{login-Steady}
use lite_chat_server.Server.Soundness.{answer-Q}

module _ ⦃host : Host⦄ (v : Steady) where
  login_and_push-Steady : (request : Request) → Keeps (On v.R) (login_and_push request)
  unfolding login_and_push
  login_and_push-Steady request = Keeps-bind _ _ (login-Steady v request) λ response.
      search (keeps_rules, cache_friends-Q v.invariant, push_offline-Q v.invariant) depth 9

  answer-Steady : (kind : Kind) (request : Request) → Keeps (On v.R) (answer kind request)
  unfolding answer
  answer-Steady login request = login_and_push-Steady request
  answer-Steady register request = answer-Q v.invariant register request (λ e. cc)
  answer-Steady kind request = answer-Q v.invariant kind request (λ e. cc)

  serve_request-Steady :
      (socket : ℕ) (request : Request) → Keeps (On v.R) (serve_request socket request)
  unfolding serve_request
  serve_request-Steady socket request =
      search (keeps_rules, answer-Steady, send_data-Keeps v.R) depth 9

  heard-Steady :
      (socket now : ℕ) → Keeps (On v.R) (on_sessions (write_session socket (update_heartbeat now)))
  heard-Steady socket now = Keeps-update _ (λ w h. v.written socket (update_heartbeat now) h)

  pub dispatch_request-Steady :
      (socket : ℕ) (text : Str) → Keeps (On v.R) (dispatch_request socket text)
  unfolding dispatch_request
  dispatch_request-Steady socket text =
      search (keeps_rules, send_data-Keeps v.R, heard-Steady, serve_request-Steady) depth 12
