-- ===== src/Messages/Offline.antt =====
-- A message to a user who is offline: what HandleSendMessage stores.
use mathlib.Core.Option
use lite_chat_server.Common.{
  Bool, List, Option, Str, [], any, ap, arith, false, find, if◌then◌else◌, length, lit, ltb, none,
  not, refl, some, suc, true, ℕ, ◌++◌, ◌||◌, ◌∙◌, ◌∷◌, ◌≡◌, ◌≤◌, nat_eq, str_eq,
}
use lite_chat_server.Host.{Host}
use lite_chat_server.Database.{
  Database, MessageRow, UserRow, has_id, has_name, insert_message_row, int_max, text_max,
  user_named, user_with_id,
}
use lite_chat_server.Sessions.{ClientSession, get_session_by_username}
use lite_chat_server.World.{World, gets, or_else, pure, when, ◌>>=◌, ◌>>◌}
use lite_chat_server.World.Statement.{execute_query}
use lite_chat_server.Wire.Calm.{calm, execute_update-calm, with_db}
use lite_chat_server.UserDao.{get_user_id_by_username, get_user_online_status}
use lite_chat_server.MessageDao.{insert_message}
use lite_chat_server.Protocol.{Request, Response, reply, response}
use lite_chat_server.Messages.{
  forward_message, handle_send_message, max_message_size, push_to_receiver, send_between,
  send_notification, store_message, validate_message_content,
}

-- The row that is stored, and the tables with it.
abbrev pub new_row : ℕ → ℕ → Str → ℕ → Database → MessageRow
new_row sender receiver content now db = record {
  message_id = db.next_message;
  sender_id = sender;
  receiver_id = receiver;
  content = content;
  send_time = now;
  is_read = false;
}

abbrev pub with_message : ℕ → ℕ → Str → ℕ → Database → Database
with_message sender receiver content now db = record db {
  messages = db.messages ++ new_row sender receiver content now db ∷ [];
  next_message = suc db.next_message;
}

pub insert_message_row-with_message :
    (i j : ℕ) (content : Str) (now : ℕ) (db : Database)
    → any (has_id i) db.users ≡ true
    → any (has_id j) db.users ≡ true
    → length content ≤ text_max
    → db.next_message ≤ int_max
    → insert_message_row i j content now db ≡ some (with_message i j content now db)
unfolding insert_message_row
insert_message_row-with_message i j content now db from to short room =
    ground (arith, from, to, short, room)

find-any :
    (p : UserRow → Bool) (users : List UserRow) (row : UserRow)
    → find p users ≡ some row
    → any (has_id row.user_id) users ≡ true
find-any p [] row e = absurd (cc e)
find-any p (u ∷ users) row e = go (p u) (find-any p users row) e
  where
    go :
        (b : Bool)
        → (find p users ≡ some row → any (has_id row.user_id) users ≡ true)
        → (if b then some u else find p users) ≡ some row
        → (has_id row.user_id u || any (has_id row.user_id) users) ≡ true
    go true later e =
        let same : u ≡ row = cc e in ground (arith, ap (λ (x : UserRow). x.user_id) same)
    go false later e = ground (arith, later e)

module _ ⦃host : Host⦄ where
  pub user_named-any :
      (name : Str) (db : Database) (row : UserRow)
      → user_named name db ≡ some row
      → any (has_id row.user_id) db.users ≡ true
  unfolding user_named
  user_named-any name db row e = find-any (has_name name) db.users row e

  -- Without a session the receiver gets nothing, whatever its flag is_online says.
  push_to_receiver-absent :
      (i j : ℕ) (request : Request) (w : World)
      → get_session_by_username request.target_username w.sessions ≡ none
      → push_to_receiver i j request (calm w) ≡ (tt, calm w)
  unfolding push_to_receiver get_user_online_status execute_query ◌>>=◌ gets pure
  push_to_receiver-absent i j request w absent =
      go (elim (Option.map (λ (row : UserRow). row.is_online) (user_with_id j w.db)) [
        | none ↦ false
        | some is_online ↦ is_online
      ])
    where
      go :
          (online : Bool)
          → when online
              (do
                session ← gets (λ w. get_session_by_username request.target_username w.sessions)
                or_else session (pure tt) (λ s. (do
                  forward_message i request.username j request.target_username request.content []
                  send_notification s.socket request.username request.content
                  pure tt)))
              (calm w)
            ≡ (tt, calm w)
      go true =
          ap
            (λ (o : Option ClientSession).
              or_else o (pure tt)
                (λ s. (do
                  forward_message i request.username j request.target_username request.content []
                  send_notification s.socket request.username request.content
                  pure tt))
                (calm w))
            absent
      go false = refl

  -- The answer to a message that is stored.
  abbrev pub sent : Response
  sent = response 0 (lit "发送成功")

  send_between-absent :
      (request : Request) (i j : ℕ) (w : World)
      → any (has_id i) w.db.users ≡ true
      → any (has_id j) w.db.users ≡ true
      → length request.content ≤ text_max
      → w.db.next_message ≤ int_max
      → get_session_by_username request.target_username w.sessions ≡ none
      → send_between request i j (calm w)
        ≡ (sent, calm (with_db (with_message i j request.content w.now w.db) w))
  unfolding send_between store_message insert_message ◌>>=◌ pure
  send_between-absent request i j w from to short room absent =
      let db = with_message i j request.content w.now w.db in
      ap
        (λ (r : Bool × World).
          (if not r.0
              then reply 5001 (lit "数据库操作失败")
              else do push_to_receiver i j request; reply 0 (lit "发送成功"))
            r.1)
        (execute_update-calm (λ w. insert_message_row i j request.content w.now w.db) w db
          (insert_message_row-with_message i j request.content w.now w.db from to short room))
      ∙ ap (λ (r : Unit {0} × World). (sent, r.1))
          (push_to_receiver-absent i j request (with_db db w) absent)

  pub handle_send_message-absent :
      (request : Request) (a b : UserRow) (w : World)
      → validate_message_content request.content ≡ true
      → length request.content ≤ text_max
      → w.db.next_message ≤ int_max
      → user_named request.username w.db ≡ some a
      → user_named request.target_username w.db ≡ some b
      → get_session_by_username request.target_username w.sessions ≡ none
      → handle_send_message request (calm w)
        ≡ (sent, calm (with_db (with_message a.user_id b.user_id request.content w.now w.db) w))
  unfolding handle_send_message get_user_id_by_username execute_query ◌>>=◌ pure
  handle_send_message-absent request a b w valid short room from to absent =
      let fits : ltb max_message_size (length request.content) ≡ false = ground (arith, short) in
      rw (valid, fits, from, to)
        (send_between-absent request a.user_id b.user_id w
          (user_named-any request.username w.db a from)
          (user_named-any request.target_username w.db b to) short room absent)
