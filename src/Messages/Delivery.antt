-- ===== src/Messages/Delivery.antt =====
-- What PushOfflineMessages delivers when nothing outside fails.
use mathlib.Core.List.{append-nil, append_assoc}
use mathlib.Core.Option
use lite_chat_server.Common.{
  All, Bool, List, Option, Str, [], ap, false, refl, some, sym, true, ℕ, ◌++◌, ◌∙◌, ◌∷◌, ◌≡◌,
}
use lite_chat_server.Host.{Host}
use lite_chat_server.Database.{Database, UserRow, mark_read, unread_rows, user_named}
use lite_chat_server.Sessions.{ClientSession, SessionManager, get_session_by_username}
use lite_chat_server.MessageDao.{Message, joined, get_unread_messages, mark_messages_as_read}
use lite_chat_server.UserDao.{get_user_id_by_username}
use lite_chat_server.World.Statement.{execute_query}
use lite_chat_server.World.{World, gets, or_else, pure, ◌>>=◌}
use lite_chat_server.Wire.{package_message, send_data}
use lite_chat_server.Wire.Calm.{calm, execute_update-calm, put_out, send_data-calm, with_db}
use lite_chat_server.Messages.{
  deliver, forward_json, forward_message, notify_json, push_each, push_if_any,
  push_offline_messages, push_one, send_notification,
}
use lite_chat_server.Messages.Outcomes.{all_read}

module _ ⦃host : Host⦄ where
  -- The two frames of a message: the message itself, and the notification.
  abbrev pub frames_of : ℕ → Message → List (ℕ × Str)
  frames_of socket msg =
      (
        socket,
        package_message
            (host.write_json (forward_json msg.sender_username msg.content msg.send_time)),
      )
      ∷ (socket, package_message (host.write_json (notify_json msg.sender_username msg.content)))
      ∷ []

  abbrev pub frames : ℕ → List Message → List (ℕ × Str)
  frames socket [] = []
  frames socket (msg ∷ messages) = frames_of socket msg ++ frames socket messages

  -- The tables when the messages between the two ids of each one are marked.
  abbrev pub marked : List Message → Database → Database
  marked [] db = db
  marked (msg ∷ messages) db = marked messages (all_read msg.sender_id msg.receiver_id db)

  -- The world with the frames sent and the messages marked.
  abbrev pub pushed : ℕ → List Message → World → World
  pushed socket messages w = record w {
    outbox = w.outbox ++ frames socket messages;
    db = marked messages w.db;
  }

  deliver-calm :
      (i j socket : ℕ) (text : Str) (w : World)
      → deliver i j socket text (calm w)
        ≡ (true, calm (with_db (all_read i j w.db) (put_out socket text w)))
  unfolding deliver ◌>>=◌ mark_messages_as_read mark_read pure
  deliver-calm i j socket text w = rw (send_data-calm socket text w) (
      ap (λ (r : Bool × World). (true, r.1))
        (execute_update-calm (λ w. mark_read i j w.db) (put_out socket text w) (all_read i j w.db)
          refl))

  pub forward_message-calm :
      (i j : ℕ) (a b c t : Str) (s : ClientSession) (w : World)
      → get_session_by_username b w.sessions ≡ some s
      → forward_message i a j b c t (calm w) ≡ (
        true,
        calm (
            with_db
              (all_read i j w.db)
              (put_out s.socket (host.write_json (forward_json a c t)) w)),
      )
  unfolding forward_message ◌>>=◌ gets
  forward_message-calm i j a b c t s w found =
      ap
        (λ (o : Option ClientSession).
          or_else o (pure false) (λ s. deliver i j s.socket (host.write_json (forward_json a c t)))
            (calm w))
        found
      ∙ deliver-calm i j s.socket (host.write_json (forward_json a c t)) w

  -- The session of the receiver of every message is this one.
  abbrev pub ForSession : ClientSession → SessionManager → Message → Type 0
  ForSession s sessions msg = get_session_by_username msg.receiver_username sessions ≡ some s

  push_one-calm :
      (s : ClientSession) (msg : Message) (w : World)
      → ForSession s w.sessions msg
      → push_one s.socket msg (calm w) ≡ (tt, calm (pushed s.socket (msg ∷ []) w))
  unfolding push_one send_notification ◌>>=◌ pure
  push_one-calm s msg w found =
      let after = with_db (all_read msg.sender_id msg.receiver_id w.db) (
        put_out s.socket
          (host.write_json (forward_json msg.sender_username msg.content msg.send_time)) w) in
      ap
        (λ (r : Bool × World). (
          tt,
          (send_data s.socket (host.write_json (notify_json msg.sender_username msg.content))
              r.1).1,
        ))
        (forward_message-calm msg.sender_id msg.receiver_id msg.sender_username
          msg.receiver_username msg.content msg.send_time s w found)
      ∙ ap (λ (r : Bool × World). (tt, r.1))
          (send_data-calm s.socket (host.write_json (notify_json msg.sender_username msg.content))
            after)
      ∙ ap
          (λ o.
            (tt, calm (record w { outbox = o; db = all_read msg.sender_id msg.receiver_id w.db })))
          (append_assoc w.outbox _ _)

  push_each-calm :
      (s : ClientSession) (messages : List Message) (w : World)
      → All (ForSession s w.sessions) messages
      → push_each s.socket messages (calm w) ≡ (tt, calm (pushed s.socket messages w))
  unfolding push_each ◌>>=◌ pure
  push_each-calm s [] w found =
      ap (λ o. (tt, calm (record w { outbox = o }))) (sym (append-nil w.outbox))
  push_each-calm s (msg ∷ messages) w (here, found) =
      ap (λ (r : Unit {0} × World). push_each s.socket messages r.1) (push_one-calm s msg w here)
      ∙ push_each-calm s messages (pushed s.socket (msg ∷ []) w) found
      ∙ ap (λ o. (tt, calm (record w { outbox = o; db = marked (msg ∷ messages) w.db })))
          (append_assoc w.outbox _ _)

  push_if_any-calm :
      (username : Str) (s : ClientSession) (messages : List Message) (w : World)
      → get_session_by_username username w.sessions ≡ some s
      → All (ForSession s w.sessions) messages
      → push_if_any username messages (calm w) ≡ (tt, calm (pushed s.socket messages w))
  unfolding push_if_any ◌>>=◌ pure gets
  push_if_any-calm username s [] w there found =
      ap (λ o. (tt, calm (record w { outbox = o }))) (sym (append-nil w.outbox))
  push_if_any-calm username s (msg ∷ messages) w there found =
      ap
        (λ (o : Option ClientSession).
          or_else o (pure tt) (λ s. push_each s.socket (msg ∷ messages)) (calm w))
        there
      ∙ push_each-calm s (msg ∷ messages) w found

  pub push_offline-calm :
      (username : Str) (row : UserRow) (s : ClientSession) (w : World)
      → user_named username w.db ≡ some row
      → get_session_by_username username w.sessions ≡ some s
      → All (ForSession s w.sessions) (joined w.db (unread_rows row.user_id w.db))
      → push_offline_messages username (calm w)
        ≡ (tt, calm (pushed s.socket (joined w.db (unread_rows row.user_id w.db)) w))
  unfolding push_offline_messages ◌>>=◌ pure get_user_id_by_username get_unread_messages
      execute_query
  push_offline-calm username row s w named there found =
      ap
        (λ (o : Option UserRow).
          or_else (Option.map (λ (row : UserRow). row.user_id) o) (pure tt)
            (λ user_id. execute_query (λ db. joined db (unread_rows user_id db)) >>= λ found.
              or_else found (pure tt) (λ messages. push_if_any username messages))
            (calm w))
        named
      ∙ push_if_any-calm username s (joined w.db (unread_rows row.user_id w.db)) w there found
