-- ===== src/Messages/Exchange.antt =====
-- A message to a user who is offline, and what PushOfflineMessages does with it later.
use lite_chat_server.Common.{
  Bool, List, Str, [], any, ap, arith, length, none, refl, select, some, str_beq_iff, subst, sym,
  true, ℕ, ◌++◌, ◌==◌, ◌&&◌, ◌∙◌, ◌∷◌, ◌≡◌, ◌≤◌, nat_eq, str_eq,
}
use lite_chat_server.Host.{Host}
use lite_chat_server.Database.{
  Database, MessageRow, UserRow, int_max, text_max, unread_rows, user_named,
}
use lite_chat_server.Database.Consistency.{IsConsistent}
use lite_chat_server.Database.Sorting.{any-by_time}
use lite_chat_server.Sessions.{ClientSession, get_session_by_username}
use lite_chat_server.World.{World}
use lite_chat_server.Wire.Calm.{calm}
use lite_chat_server.MessageDao.{Message, joined}
use lite_chat_server.Protocol.{Request, Response}
use lite_chat_server.Messages.{handle_send_message, push_offline_messages, validate_message_content}
use lite_chat_server.Messages.Delivery.{frames}
use lite_chat_server.Messages.Joining.{joined-any_of, named-carries}
use lite_chat_server.Messages.Inbox.{
  between, push_offline_messages-delivers, unread_rows-select, waits_for,
}
use lite_chat_server.Messages.Offline.{handle_send_message-absent, new_row}

-- Is it the message with this number, from this sender, with this text?
abbrev pub is_that : ℕ → ℕ → Str → ℕ → ℕ → Str → Bool
is_that k sender content k' sender' content' = k' == k && (sender' == sender && content' == content)

abbrev pub is_message : ℕ → ℕ → Str → Message → Bool
is_message k sender content msg = is_that k sender content msg.message_id msg.sender_id msg.content

abbrev is_row : ℕ → ℕ → Str → MessageRow → Bool
is_row k sender content row = is_that k sender content row.message_id row.sender_id row.content

any-select :
    (p q : MessageRow → Bool) (rows : List MessageRow)
    → any q (select p rows) ≡ any (λ row. p row && q row) rows
any-select p q [] = refl
any-select p q (x ∷ rows) = ground (arith, any-select p q rows)

any-last :
    (p : MessageRow → Bool) (rows : List MessageRow) (row : MessageRow)
    → p row ≡ true
    → any p (rows ++ row ∷ []) ≡ true
any-last p [] row good = ground (arith, good)
any-last p (x ∷ rows) row good = ground (arith, any-last p rows row good)

-- Is it the row with this number, from this sender, with this text, and unread by this receiver?
abbrev pub is_unread : ℕ → ℕ → ℕ → Str → MessageRow → Bool
is_unread receiver k sender content row = waits_for receiver row && is_row k sender content row

new_row-is_row :
    (i j : ℕ) (content : Str) (now : ℕ) (db : Database)
    → is_row db.next_message i content (new_row i j content now db) ≡ true
new_row-is_row i j content now db =
    let same : content == content ≡ true = (str_beq_iff content content).1 refl in
    ground (arith, same)

module _ ⦃host : Host⦄ where
  -- What PushOfflineMessages finds: a message whose row is unread is in the inbox.
  inbox-any :
      (j k i : ℕ) (content : Str) (db : Database)
      → IsConsistent db
      → any (is_unread j k i content) db.messages ≡ true
      → any (is_message k i content) (joined db (unread_rows j db)) ≡ true
  inbox-any j k i content db c there =
      joined-any_of db (is_message k i content) (is_row k i content)
        (λ row sender receiver msg e.
          let (number, from, text) = named-carries row sender receiver msg e in
          let test = is_that k i content in
          ap (λ x. test x msg.sender_id msg.content) number
          ∙ ap (λ x. test row.message_id x msg.content) from
          ∙ ap (test row.message_id row.sender_id) text)
        (unread_rows j db) (between j db c)
      ∙ ap (any (is_row k i content)) (unread_rows-select j db)
      ∙ any-by_time (is_row k i content) (select (waits_for j) db.messages)
      ∙ any-select (waits_for j) (is_row k i content) db.messages
      ∙ there

  -- The message was stored in this world with this answer.
  abbrev pub IsStored : UserRow → UserRow → Request → World → Response × World → Type 0
  IsStored a b request w stored =
      (stored.0.code ≡ 0)
      × (stored.1.outbox ≡ w.outbox)
      × (any (is_unread b.user_id w.db.next_message a.user_id request.content) stored.1.db.messages
          ≡ true)

  -- PushOfflineMessages delivers the message with this number and empties the inbox.
  abbrev pub IsDelivered : UserRow → UserRow → Request → ClientSession → ℕ → World → Type 0
  IsDelivered a b request s k later =
      let inbox = joined later.db (unread_rows b.user_id later.db) in
      let after : World = (push_offline_messages request.target_username (calm later)).1 in
      (any (is_message k a.user_id request.content) inbox ≡ true)
      × (after.outbox ≡ later.outbox ++ frames s.socket inbox)
      × (unread_rows b.user_id after.db ≡ [])

  -- A message to a user who has no session is stored, and PushOfflineMessages, which a successful
  -- login runs, delivers it. If the tables keep their constraints and no statement fails,
  -- HandleSendMessage answers with 0, sends nothing, and leaves the message unread in the tables.
  -- In every later world, whatever its tables and sessions, in which the constraints hold, the
  -- receiver has a row under that name, a session is bound to the name, and the row of the message is
  -- in the tables and unread by the receiver: if no statement and no send() fails then,
  -- PushOfflineMessages sends to that session an inbox that the message is in, and nothing of the
  -- receiver is unread afterwards. The content is valid and fits the column, the numbers have not run
  -- out, and the name is spelled as in the later tables.
  pub handle_send_message-Reaches :
      (request : Request) (a b receiver : UserRow) (s : ClientSession) (w later : World)
      → IsConsistent w.db
      → validate_message_content request.content ≡ true
      → length request.content ≤ text_max
      → w.db.next_message ≤ int_max
      → user_named request.username w.db ≡ some a
      → user_named request.target_username w.db ≡ some b
      → get_session_by_username request.target_username w.sessions ≡ none
      → IsConsistent later.db
      → user_named request.target_username later.db ≡ some receiver
      → receiver.username ≡ request.target_username
      → get_session_by_username request.target_username later.sessions ≡ some s
      → any
          (is_unread receiver.user_id w.db.next_message a.user_id request.content)
          later.db.messages
        ≡ true
      → IsStored a b request w (handle_send_message request (calm w))
        × IsDelivered a receiver request s w.db.next_message later
  unfolding user_named
  handle_send_message-Reaches request a b receiver s w later c valid short room from to absent c'
        to' spelled bound there =
      let (out, _, _, cleared, _) =
        push_offline_messages-delivers request.target_username receiver s later c' to' spelled
          bound in
      let good = is_unread b.user_id w.db.next_message a.user_id request.content in
      let row = new_row a.user_id b.user_id request.content w.now w.db in
      let unread : any good (w.db.messages ++ row ∷ []) ≡ true =
        any-last good w.db.messages row
          (ground (arith, new_row-is_row a.user_id b.user_id request.content w.now w.db)) in
      (
        subst (IsStored a b request w)
            (sym (handle_send_message-absent request a b w valid short room from to absent))
            (refl, refl, unread),
        (
          inbox-any receiver.user_id w.db.next_message a.user_id request.content later.db c' there,
          out,
          cleared,
        ),
      )
