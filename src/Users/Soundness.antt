-- ===== src/Users/Soundness.antt =====
-- A login leaves the session tables sound, whatever the database and the network answer.
use lite_chat_server.Common.{
  Bool-cases, Option, Str, [], arith, false, inl, inr, lookup, lookup-modify, lookup-modify_self,
  modify, none, refl, some, true, ℕ, ◌==◌, ◌≡◌, ◌≢◌, ◌⊎◌, nat_eq, str_eq,
}
use lite_chat_server.Host.{Host}
use lite_chat_server.Sessions.{
  ClientSession, SessionManager, bind_username, get_session, get_session_by_username, set_username,
  update_heartbeat, write_session,
}
use lite_chat_server.Sessions.Linked.{IsSound, get_session_by_username-named, write_session-IsSound}
use lite_chat_server.Sessions.Login.{
  IsSoundBut, IsSoundBut-weaken, kicked-IsSoundBut, take_name-IsSound,
}
use lite_chat_server.World.{World, gets, or_else, pure, ◌>>=◌}
use lite_chat_server.World.Keeps.{
  Keeps, Keeps-pure, Leads, Leads-after, Leads-before, Leads-bind, Leads-when, keeps_rules,
}
use lite_chat_server.World.Frame.{OfSessions, room, send_data-Keeps}
use lite_chat_server.Wire.{send_data}
use lite_chat_server.Users.{
  attach_session, complete_login, force_offline, handle_login, kick, validate_username,
}
use lite_chat_server.Protocol.{Request}
use lite_chat_server.Users.Frame.{get_user-Q, login_time-Q, notify-Q, set_status-Q, status-Q}

-- The client on socket `s` has a session, with no name or with the name `u`.
pub record IsClient (u : Str) (s : ℕ) (m : SessionManager) : Type 0 where
  pub session : ClientSession
  pub at : lookup s m.cli_session_map ≡ some session
  pub vacant : (session.username ≡ []) ⊎ (session.username ≡ u)

pub record IsReady (u : Str) (s : ℕ) (m : SessionManager) : Type 0 where
  pub sound : IsSound m
  pub client : IsClient u s m

pub record IsReadyBut (u : Str) (s : ℕ) (m : SessionManager) : Type 0 where
  pub sound : IsSoundBut u m
  pub client : IsClient u s m

module _ (u : Str) (s : ℕ) where
  -- Taking a name from a session takes none from the client but `u`.
  pub unnamed-IsClient :
      (m : SessionManager) (t : ℕ)
      → IsClient u s m
      → IsClient u s (write_session t (set_username []) m)
  unfolding write_session
  unnamed-IsClient m t c = elim (Bool-cases (t == s)) [
    | inl hit ↦ record {
      session = set_username [] c.session;
      at = ground (arith, lookup-modify t s (set_username []) m.cli_session_map, c.at);
      vacant = inl refl;
    }
    | inr miss ↦ record {
      session = c.session;
      at = ground (arith, lookup-modify t s (set_username []) m.cli_session_map, c.at);
      vacant = c.vacant;
    }
  ]

  pub weaken-IsReady : (m : SessionManager) → IsReady u s m → IsReadyBut u s m
  weaken-IsReady m r = record { sound = IsSoundBut-weaken m u r.sound; client = r.client }

pub attached-at :
    (u : Str) (s now : ℕ) (m : SessionManager) (c : ClientSession)
    → lookup s m.cli_session_map ≡ some c
    → lookup s
        (write_session s
          (update_heartbeat now)
          (bind_username s u (write_session s (set_username u) m))).cli_session_map
      ≡ some (update_heartbeat now (set_username u c))
unfolding write_session bind_username
attached-at u s now m c e =
    lookup-modify_self s (update_heartbeat now) (modify s (set_username u) m.cli_session_map) _
      (lookup-modify_self s (set_username u) m.cli_session_map c e)

module _ ⦃host : Host⦄ (u : Str) (s : ℕ) where
  -- The session that is kicked is the one that bears the name.
  kick-Leads :
      (old : ClientSession)
      → Leads
          (λ w. IsReady u s w.sessions × (get_session_by_username u w.sessions ≡ some old))
          (OfSessions (IsReadyBut u s))
          (kick old)
  unfolding kick ◌>>=◌
  kick-Leads old = record {
    to = λ w h.
        let sent =
          send_data-Keeps (λ m _ _. IsReady u s m × (get_session_by_username u m ≡ some old))
            old.socket _ in
        go (send_data old.socket _ w).1.sessions (sent.at w h);
  }
    where
      go :
          (m : SessionManager)
          → IsReady u s m × (get_session_by_username u m ≡ some old)
          → IsReadyBut u s (write_session old.socket (set_username []) m)
      go m (r, e) = record {
        sound =
            kicked-IsSoundBut m u old.socket (get_session_by_username-named m u old r.sound e).2
              r.sound;
        client = unnamed-IsClient u s m old.socket r.client;
      }

  kick_found-Leads : Leads (OfSessions (IsReady u s)) (OfSessions (IsReadyBut u s)) (do
    old ← gets (λ w. get_session_by_username u w.sessions)
    or_else old (pure tt) (λ session. kick session))
  unfolding ◌>>=◌
  kick_found-Leads = record { to = λ w h. go w (get_session_by_username u w.sessions) refl h }
    where
      go :
          (w : World) (old : Option ClientSession)
          → get_session_by_username u w.sessions ≡ old
          → IsReady u s w.sessions
          → IsReadyBut u s (or_else old (pure tt) (λ session. kick session) w).1.sessions
      go w none e r = weaken-IsReady u s w.sessions r
      go w (some old) e r = (kick-Leads old).to w (r, e)

  pub force_offline-Leads :
      (id : ℕ) → Leads (OfSessions (IsReady u s)) (OfSessions (IsReadyBut u s)) (force_offline id u)
  unfolding force_offline
  force_offline-Leads id =
      Leads-before _ _ (set_status-Q (room (λ m _. IsReady u s m)) id false) (λ _. kick_found-Leads)

  -- The client's session takes the name.
  pub attach-Leads :
      u ≢ [] → Leads (OfSessions (IsReadyBut u s)) (OfSessions (IsReady u s)) (attach_session s u)
  unfolding attach_session ◌>>=◌ get_session
  attach-Leads n = record { to = λ w r. rw r.client.at (go w.now w.sessions r) }
    where
      go :
          (now : ℕ) (m : SessionManager)
          → IsReadyBut u s m
          → IsReady u s (
              write_session s
                (update_heartbeat now)
                (bind_username s u (write_session s (set_username u) m)))
      go now m r = record {
        sound =
            write_session-IsSound _ s (update_heartbeat now) (λ c. (refl, refl))
              (take_name-IsSound m u s r.client.session n r.client.at r.client.vacant r.sound);
        client = record {
          session = update_heartbeat now (set_username u r.client.session);
          at = attached-at u s now m r.client.session r.client.at;
          vacant = inr refl;
        };
      }

-- A valid name is not empty.
pub valid-ne-nil : (u : Str) → validate_username u ≡ true → u ≢ []
unfolding validate_username
valid-ne-nil u h e = ground arith

module _ ⦃host : Host⦄ (request : Request) where
  abbrev Ready : World → Type 0
  Ready w = IsReady request.username request.client_socket w.sessions

  complete_login-Ready : request.username ≢ [] → (id : ℕ) → Keeps Ready (complete_login id request)
  unfolding complete_login
  complete_login-Ready n id = record { at = l.to }
    where
      u : Str
      u = request.username

      s : ℕ
      s = request.client_socket

      R : SessionManager → ℕ → Type 0
      R = λ m _. IsReady u s m

      B : SessionManager → ℕ → Type 0
      B = λ m _. IsReadyBut u s m

      l : Leads Ready Ready (complete_login id request)
      l = Leads-before _ _ (status-Q (room R) id) λ status.
          Leads-bind _ _
            (Leads-when _ _ (λ w r. weaken-IsReady u s w.sessions r) (force_offline-Leads u s id))
            λ _. Leads-before _ _ (set_status-Q (room B) id true) λ _.
              Leads-before _ _ (login_time-Q (room B) id) λ _.
                Leads-after _ _ (attach-Leads u s n) λ _. search (keeps_rules, notify-Q (room R))

  pub login-Ready : Keeps Ready (handle_login request)
  unfolding handle_login
  login-Ready = elim (Bool-cases (validate_username request.username)) [
    | inl valid ↦
        let k = complete_login-Ready (valid-ne-nil request.username valid) in
        search
          (
            keeps_rules,
            get_user-Q (room (λ m _. IsReady request.username request.client_socket m)),
            k,
          )
          depth 9
    | inr bad ↦ rw (bad, handle_login) (Keeps-pure _)
  ]
