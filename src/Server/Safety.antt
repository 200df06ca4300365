-- ===== src/Server/Safety.antt =====
-- Each step of the server, whatever the clients, the database and the network do, keeps the session
-- tables sound and the connection counter right.
use lite_chat_server.Common.{
  Bool-cases, Str, arith, erase-KeysDistinct, inl, inr, insert-KeysDistinct, leb,
  length-erase_found, length-insert_fresh, lookup, none, refl, some, ℕ, ◌+◌, ◌-◌, ◌<◌, ◌≡◌, nat_eq,
  str_eq,
}
use lite_chat_server.Sessions.{
  ClientSession, SessionManager, add_session, new_session, remove_session,
}
use lite_chat_server.Server.Connections.{accept_connection, admit, busy_text, refuse, sign_off}
use lite_chat_server.Host.{Host}
use lite_chat_server.Sessions.Removal.{add_session-IsSound, remove_session-IsSound}
use lite_chat_server.World.{World, ◌>>=◌}
use lite_chat_server.World.Keeps.{Keeps, keeps_rules}
use lite_chat_server.Sessions.Linked.{IsSound}
use lite_chat_server.Protocol.{max_connections}
use lite_chat_server.Users.Counting.{IsCounted, counted}
use lite_chat_server.World.Frame.{Invariant, OfRoom, On, room, send_some-Keeps}
use lite_chat_server.Users.Frame.{notify-Q, user_status-Q}
use lite_chat_server.Wire.{package_message}
use lite_chat_server.Server.Dispatch.{dispatch_request}
use lite_chat_server.Friends.Frame.{uncache-Q}
use lite_chat_server.Server.Soundness.{dispatch_request-IsServed}
use lite_chat_server.Server.Serving.{dispatch_request-Steady}

-- What is kept besides the counter, where a session comes and where one goes.
pub record IsClosed (P : SessionManager → Type 0) : Type 0 where
  pub come :
      (socket now : ℕ) (ip : Str) (port : ℕ) (m : SessionManager)
      → lookup socket m.cli_session_map ≡ none
      → P m
      → P (add_session socket (new_session now socket ip port) m)
  pub go : (socket : ℕ) (m : SessionManager) → P m → P (remove_session socket m)

pub IsSound-IsClosed : IsClosed IsSound
IsSound-IsClosed = record {
  come = λ socket now ip port m fresh s. add_session-IsSound m socket _ fresh refl refl s;
  go = λ socket m s. remove_session-IsSound m socket s;
}

pub Unit-IsClosed : IsClosed (λ _. Unit {0})
Unit-IsClosed = record { come = λ socket now ip port m fresh u. u; go = λ socket m u. u }

-- The counter is right, and `P` holds of the sessions.
pub record IsSafe (P : SessionManager → Type 0) (m : SessionManager) (n : ℕ) : Type 0 where
  pub sound : P m
  pub counted : IsCounted m n

-- A session goes, and the counter with it.
pub dropped-IsSafe :
    (P : SessionManager → Type 0)
    → IsClosed P
    → (socket n : ℕ) (session : ClientSession) (m : SessionManager)
    → lookup socket m.cli_session_map ≡ some session
    → IsSafe P m n
    → IsSafe P (remove_session socket m) (n - 1)
unfolding remove_session
dropped-IsSafe P closed socket n session m e s = record {
  sound = closed.go socket m s.sound;
  counted =
      rw (remove_session, e)
        (record {
          distinct = erase-KeysDistinct socket m.cli_session_map s.counted.distinct;
          counted = omega (
            arith,
            s.counted.counted,
            length-erase_found socket session m.cli_session_map s.counted.distinct e,
          );
          bounded = omega (arith, s.counted.bounded);
        });
}

-- A new client comes, on a socket that no session holds, if there is room.
pub admitted-IsSafe :
    (P : SessionManager → Type 0)
    → IsClosed P
    → (socket n now : ℕ) (ip : Str) (port : ℕ) (m : SessionManager)
    → lookup socket m.cli_session_map ≡ none
    → n < max_connections
    → IsSafe P m n
    → IsSafe P (add_session socket (new_session now socket ip port) m) (n + 1)
unfolding add_session
admitted-IsSafe P closed socket n now ip port m fresh room s = record {
  sound = closed.come socket now ip port m fresh s.sound;
  counted = record {
    distinct = insert-KeysDistinct socket _ m.cli_session_map s.counted.distinct;
    counted = omega (
      arith,
      s.counted.counted,
      length-insert_fresh socket (new_session now socket ip port) m.cli_session_map fresh,
    );
    bounded = omega arith;
  };
}

pub accept_connection-IsSafe :
    (P : SessionManager → Type 0)
    → IsClosed P
    → (socket : ℕ) (ip : Str) (port : ℕ) (w : World)
    → lookup socket w.sessions.cli_session_map ≡ none
    → OfRoom (IsSafe P) w
    → OfRoom (IsSafe P) (accept_connection socket ip port w).1
unfolding accept_connection refuse admit ◌>>=◌
accept_connection-IsSafe P closed socket ip port w fresh s =
    elim (Bool-cases (leb max_connections w.current_connections)) [
      | inl full ↦
          rw full
            ((send_some-Keeps (λ m _ n. IsSafe P m n) socket (package_message busy_text)).at w s)
      | inr free ↦ rw free (
          admitted-IsSafe P closed socket w.current_connections w.now ip port w.sessions fresh
            (ground arith) s)
    ]

module _ ⦃host : Host⦄ where
  pub sign_off-Q : (v : Invariant) (u : Str) → Keeps (On v.R) (sign_off u)
  unfolding sign_off
  sign_off-Q v u = search (keeps_rules, user_status-Q v, notify-Q v, uncache-Q v) depth 9

  -- One message of a client that has a session.
  pub dispatch_request-IsSafe :
      (socket : ℕ) (text : Str) (session : ClientSession) (w : World)
      → lookup socket w.sessions.cli_session_map ≡ some session
      → OfRoom (IsSafe IsSound) w
      → OfRoom (IsSafe IsSound) (dispatch_request socket text w).1
  dispatch_request-IsSafe socket text session w e s = record {
    sound =
        ((dispatch_request-IsServed socket text).at w
          (record { sound = s.sound; session = session; at = e })).sound;
    counted = (dispatch_request-Steady counted socket text).at w s.counted;
  }

  -- One message, whether its sender has a session or not.
  pub dispatch_request-IsCounted :
      (socket : ℕ) (text : Str) (w : World)
      → OfRoom (IsSafe (λ _. Unit {0})) w
      → OfRoom (IsSafe (λ _. Unit {0})) (dispatch_request socket text w).1
  dispatch_request-IsCounted socket text w s = record {
    sound = tt;
    counted = (dispatch_request-Steady counted socket text).at w s.counted;
  }
