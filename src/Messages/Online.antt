-- ===== src/Messages/Online.antt =====
-- A message to a user who is online and has a session: what HandleSendMessage sends and marks.
use lite_chat_server.Common.{
  Bool, List, Str, [], any, arith, false, length, ltb, refl, some, true, ℕ, ◌∷◌, ◌≡◌, ◌≤◌, nat_eq,
  str_eq,
}
use lite_chat_server.Host.{Host}
use lite_chat_server.Database.{UserRow, has_id, int_max, text_max, user_named, user_with_id}
use lite_chat_server.Sessions.{ClientSession, get_session_by_username}
use lite_chat_server.World.{World, gets, pure, ◌>>=◌}
use lite_chat_server.World.Statement.{commit, execute_query, execute_update}
use lite_chat_server.Wire.{package_message, send_data, send_loop, send_some}
use lite_chat_server.Wire.Calm.{calm, put_out, send_data-calm, with_db}
use lite_chat_server.UserDao.{get_user_id_by_username, get_user_online_status}
use lite_chat_server.MessageDao.{insert_message}
use lite_chat_server.Protocol.{Request}
use lite_chat_server.Messages.{
  deliver, forward_json, forward_message, handle_send_message, max_message_size, notify_json,
  push_to_receiver, send_between, send_notification, store_message, validate_message_content,
}
use lite_chat_server.Messages.Delivery.{forward_message-calm}
use lite_chat_server.Messages.Offline.{
  insert_message_row-with_message, sent, user_named-any, with_message,
}
use lite_chat_server.Messages.Outcomes.{all_read}

-- Statements are answered, and send() takes what the list says.
abbrev pub sending : List ℕ → World → World
sending results w = record w { db_results = []; send_results = results }

send_data-refused :
    (socket : ℕ) (text : Str) (w : World)
    → send_data socket text (sending (0 ∷ []) w) ≡ (false, calm w)
unfolding send_data package_message send_loop send_some ◌>>=◌ pure
send_data-refused socket text w = refl

module _ ⦃host : Host⦄ where
  -- The frame that carries the message, and the notification.
  abbrev pub forwarded : Request → Str
  forwarded request = host.write_json (forward_json request.username request.content [])

  abbrev pub notified : Request → Str
  notified request = host.write_json (notify_json request.username request.content)

  forward_message-refused :
      (i j : ℕ) (a b c t : Str) (s : ClientSession) (w : World)
      → get_session_by_username b w.sessions ≡ some s
      → forward_message i a j b c t (sending (0 ∷ []) w) ≡ (false, calm w)
  unfolding forward_message deliver ◌>>=◌ gets pure
  forward_message-refused i j a b c t s w found =
      rw (found, send_data-refused s.socket (host.write_json (forward_json a c t)) w) refl

  push_to_receiver-present :
      (results : List ℕ) (i j : ℕ) (request : Request) (b : UserRow) (s : ClientSession) (ok : Bool)
      (w w' : World)
      → user_with_id j w.db ≡ some b
      → b.is_online ≡ true
      → get_session_by_username request.target_username w.sessions ≡ some s
      → forward_message i request.username j request.target_username request.content []
          (sending results w)
        ≡ (ok, calm w')
      → push_to_receiver i j request (sending results w)
        ≡ (tt, calm (put_out s.socket (notified request) w'))
  unfolding push_to_receiver get_user_online_status execute_query send_notification ◌>>=◌ gets pure
  push_to_receiver-present results i j request b s ok w w' there online found forward =
      rw (there, online, found, forward, send_data-calm s.socket (notified request) w') refl

  send_between-present :
      (results : List ℕ) (request : Request) (i j : ℕ) (w w' : World)
      → any (has_id i) w.db.users ≡ true
      → any (has_id j) w.db.users ≡ true
      → length request.content ≤ text_max
      → w.db.next_message ≤ int_max
      → push_to_receiver i j request
          (sending results (with_db (with_message i j request.content w.now w.db) w))
        ≡ (tt, calm w')
      → send_between request i j (sending results w) ≡ (sent, calm w')
  unfolding send_between store_message insert_message execute_update commit ◌>>=◌ pure
  send_between-present results request i j w w' from to short room pushed =
      rw (insert_message_row-with_message i j request.content w.now w.db from to short room, pushed)
        refl

  handle_send_message-present :
      (results : List ℕ) (request : Request) (a b : UserRow) (w w' : World)
      → validate_message_content request.content ≡ true
      → length request.content ≤ text_max
      → w.db.next_message ≤ int_max
      → user_named request.username w.db ≡ some a
      → user_named request.target_username w.db ≡ some b
      → push_to_receiver a.user_id b.user_id request (
          sending results (with_db (with_message a.user_id b.user_id request.content w.now w.db) w))
        ≡ (tt, calm w')
      → handle_send_message request (sending results w) ≡ (sent, calm w')
  unfolding handle_send_message get_user_id_by_username execute_query ◌>>=◌ pure
  handle_send_message-present results request a b w w' valid short room from to pushed =
      let fits : ltb max_message_size (length request.content) ≡ false = ground (arith, short) in
      rw (valid, fits, from, to)
        (send_between-present results request a.user_id b.user_id w w'
          (user_named-any request.username w.db a from)
          (user_named-any request.target_username w.db b to) short room pushed)

  -- A message to a user who is online in the tables and has a session is sent at once and marked as
  -- read, or stays unread if it cannot be sent. The content is valid and fits the column, the numbers have not run out,
  -- and all statements are answered. If every send() takes all bytes, the session gets the message and
  -- the notification, and every unread message of the sender to the receiver, this one included, is
  -- marked. If the first send() fails and the others do not, the session gets the notification only,
  -- and the message is in the tables unread, nothing else having changed. The answer is 0 both times.
  pub handle_send_message-marks :
      (request : Request) (a b : UserRow) (s : ClientSession) (w : World)
      → validate_message_content request.content ≡ true
      → length request.content ≤ text_max
      → w.db.next_message ≤ int_max
      → user_named request.username w.db ≡ some a
      → user_named request.target_username w.db ≡ some b
      → user_with_id b.user_id w.db ≡ some b
      → b.is_online ≡ true
      → get_session_by_username request.target_username w.sessions ≡ some s
      → let stored = with_message a.user_id b.user_id request.content w.now w.db in
        (handle_send_message request (sending [] w) ≡ (
          sent,
          calm (
              put_out s.socket (notified request) (
                with_db
                  (all_read a.user_id b.user_id stored)
                  (put_out s.socket (forwarded request) w))),
        ))
        × (handle_send_message request (sending (0 ∷ []) w)
            ≡ (sent, calm (put_out s.socket (notified request) (with_db stored w))))
  unfolding user_with_id
  handle_send_message-marks request a b s w valid short room from to there online found =
      let stored = with_message a.user_id b.user_id request.content w.now w.db in
      let delivered : World =
        with_db (all_read a.user_id b.user_id stored) (put_out s.socket (forwarded request) w) in
      (
        handle_send_message-present [] request a b w (put_out s.socket (notified request) delivered)
            valid short room from to
            (push_to_receiver-present [] a.user_id b.user_id request b s true (with_db stored w)
              delivered there online found
              (forward_message-calm a.user_id b.user_id request.username request.target_username
                request.content [] s (with_db stored w) found)),
        handle_send_message-present (0 ∷ []) request a b w
            (put_out s.socket (notified request) (with_db stored w)) valid short room from to
            (push_to_receiver-present (0 ∷ []) a.user_id b.user_id request b s false
              (with_db stored w) (with_db stored w) there online found
              (forward_message-refused a.user_id b.user_id request.username request.target_username
                request.content [] s (with_db stored w) found)),
      )
