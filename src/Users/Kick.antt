-- ===== src/Users/Kick.antt =====
-- What the kick of a login and the binding of its name do to linked tables.
use lite_chat_server.Common.{
  Option, Option-cases, Str, [], arith, false, inl, inr, lookup, none, refl, some, ℕ, ◌≡◌, ◌≢◌,
  nat_eq, str_eq,
}
use lite_chat_server.Host.{Host}
use lite_chat_server.Sessions.{
  ClientSession, SessionManager, bind_username, get_session, get_session_by_username, set_username,
  update_heartbeat, write_session,
}
use lite_chat_server.Sessions.Linked.{
  IsLinked, IsSound, get_session_by_username-named, write_session-IsLinked,
}
use lite_chat_server.Sessions.Login.{
  IsLinkedBut, absent-IsLinkedBut, kicked-IsLinkedBut, take_name-IsLinked,
}
use lite_chat_server.Wire.{send_data}
use lite_chat_server.World.{World, gets, or_else, pure, ◌>>=◌}
use lite_chat_server.World.Keeps.{Leads, Leads-before}
use lite_chat_server.World.Frame.{OfSessions, room, send_data-Keeps}
use lite_chat_server.Users.{attach_session, force_offline, kick}
use lite_chat_server.Users.Frame.{set_status-Q}
use lite_chat_server.Users.Soundness.{IsClient, attached-at, unnamed-IsClient}

-- Names and sessions agree, and the client has a session with no name or with the name `u`.
pub record IsJoined (u : Str) (s : ℕ) (m : SessionManager) : Type 0 where
  pub linked : IsLinked m
  pub client : IsClient u s m

pub record IsJoinedBut (u : Str) (s : ℕ) (m : SessionManager) : Type 0 where
  pub linked : IsLinkedBut u m
  pub client : IsClient u s m

-- A name that leads to no session is not in the table.
unfound-absent :
    (m : SessionManager) (u : Str)
    → IsSound m
    → get_session_by_username u m ≡ none
    → lookup u m.username_to_socket ≡ none
unfolding get_session_by_username
unfound-absent m u l e = elim (Option-cases (lookup u m.username_to_socket)) [
  | inl absent ↦ absent
  | inr (t, bound) ↦ contra t bound (l.named u t bound)
]
  where
    contra :
        (t : ℕ)
        → lookup u m.username_to_socket ≡ some t
        → (c : ClientSession) × (lookup t m.cli_session_map ≡ some c) × (c.username ≡ u)
        → lookup u m.username_to_socket ≡ none
    contra t bound (c, found, _) = absurd (ground (arith, bound, found, e))

module _ ⦃host : Host⦄ (u : Str) (s : ℕ) where
  kick-Joined :
      (old : ClientSession)
      → Leads
          (λ w. IsJoined u s w.sessions × (get_session_by_username u w.sessions ≡ some old))
          (OfSessions (IsJoinedBut u s))
          (kick old)
  unfolding kick ◌>>=◌
  kick-Joined old = record {
    to = λ w h.
        let sent =
          send_data-Keeps (λ m _ _. IsJoined u s m × (get_session_by_username u m ≡ some old))
            old.socket _ in
        go (send_data old.socket _ w).1.sessions (sent.at w h);
  }
    where
      go :
          (m : SessionManager)
          → IsJoined u s m × (get_session_by_username u m ≡ some old)
          → IsJoinedBut u s (write_session old.socket (set_username []) m)
      go m (j, e) = record {
        linked =
            kicked-IsLinkedBut m u old.socket
              (get_session_by_username-named m u old j.linked.sound e).2 j.linked;
        client = unnamed-IsClient u s m old.socket j.client;
      }

  pub absent-Joined :
      (m : SessionManager)
      → IsJoined u s m
      → lookup u m.username_to_socket ≡ none
      → IsJoinedBut u s m
  absent-Joined m j absent = record {
    linked = absent-IsLinkedBut m u j.linked absent;
    client = j.client;
  }

  kick_found-Joined : Leads (OfSessions (IsJoined u s)) (OfSessions (IsJoinedBut u s)) (do
    old ← gets (λ w. get_session_by_username u w.sessions)
    or_else old (pure tt) (λ session. kick session))
  unfolding ◌>>=◌
  kick_found-Joined = record { to = λ w j. go w (get_session_by_username u w.sessions) refl j }
    where
      go :
          (w : World) (old : Option ClientSession)
          → get_session_by_username u w.sessions ≡ old
          → IsJoined u s w.sessions
          → IsJoinedBut u s (or_else old (pure tt) (λ session. kick session) w).1.sessions
      go w none e j = absent-Joined w.sessions j (unfound-absent w.sessions u j.linked.sound e)
      go w (some old) e j = (kick-Joined old).to w (j, e)

  pub force-Joined :
      (id : ℕ)
      → Leads (OfSessions (IsJoined u s)) (OfSessions (IsJoinedBut u s)) (force_offline id u)
  unfolding force_offline
  force-Joined id =
      Leads-before _ _ (set_status-Q (room (λ m _. IsJoined u s m)) id false)
        (λ _. kick_found-Joined)

  pub attach-Joined :
      u ≢ [] → Leads (OfSessions (IsJoinedBut u s)) (OfSessions (IsJoined u s)) (attach_session s u)
  unfolding attach_session ◌>>=◌ get_session
  attach-Joined n = record { to = λ w j. rw j.client.at (go w.now w.sessions j) }
    where
      go :
          (now : ℕ) (m : SessionManager)
          → IsJoinedBut u s m
          → IsJoined u s (
              write_session s
                (update_heartbeat now)
                (bind_username s u (write_session s (set_username u) m)))
      go now m j = record {
        linked =
            write_session-IsLinked _ s (update_heartbeat now) (λ c. (refl, refl))
              (take_name-IsLinked m u s j.client.session n j.client.at j.client.vacant j.linked);
        client = record {
          session = update_heartbeat now (set_username u j.client.session);
          at = attached-at u s now m j.client.session j.client.at;
          vacant = inr refl;
        };
      }
