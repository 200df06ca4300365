-- ===== src/Users/Counting.antt =====
-- The counter of connections against the sessions.
use lite_chat_server.Common.{
  KeysDistinct, Str, length, length-modify, modify-KeysDistinct, sym, ℕ, ◌∙◌, ◌≡◌, ◌≤◌, nat_eq,
  str_eq,
}
use lite_chat_server.Host.{Host}
use lite_chat_server.Sessions.{ClientSession, SessionManager, bind_username, write_session}
use lite_chat_server.World.Frame.{Steady, room}
use lite_chat_server.Protocol.{max_connections}

-- Every session is stored once, the counter counts the sessions, and there are not too many.
pub record IsCounted (m : SessionManager) (n : ℕ) : Type 0 where
  pub distinct : KeysDistinct m.cli_session_map
  pub counted : n ≡ length m.cli_session_map
  pub bounded : n ≤ max_connections

pub write_session-IsCounted :
    (m : SessionManager) (n s : ℕ) (f : ClientSession → ClientSession)
    → IsCounted m n
    → IsCounted (write_session s f m) n
unfolding write_session
write_session-IsCounted m n s f c = record {
  distinct = modify-KeysDistinct s f m.cli_session_map c.distinct;
  counted = c.counted ∙ sym (length-modify s f m.cli_session_map);
  bounded = c.bounded;
}

pub bind_username-IsCounted :
    (m : SessionManager) (n s : ℕ) (u : Str) → IsCounted m n → IsCounted (bind_username s u m) n
unfolding bind_username
bind_username-IsCounted m n s u c = record {
  distinct = c.distinct;
  counted = c.counted;
  bounded = c.bounded;
}

-- No write to a session and no statement opens or closes a connection.
abbrev pub counted : ⦃host : Host⦄ → Steady
counted = record {
  invariant = room IsCounted;
  written = λ s f h. write_session-IsCounted _ _ s f h;
  bound = λ s u h. bind_username-IsCounted _ _ s u h;
}
