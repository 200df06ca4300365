-- ===== src/Messages/Inbox.antt =====
-- Which messages PushOfflineMessages reads, and which are unread afterwards.
use lite_chat_server.Common.{
  All, All-map, All-select, select-All, All-update, Bool, List, Str, [], any, ap, arith, false,
  if◌then◌else◌, length, not, refl, select, some, subst, sym, true, ℕ, ◌&&◌, ◌++◌, ◌==◌, ◌||◌, ◌∙◌,
  ◌∷◌, ◌≡◌, nat_eq,
}
use lite_chat_server.Host.{Host}
use lite_chat_server.Database.{
  Database, MessageRow, UserRow, by_time, from_to, unread_rows, user_named, user_with_id,
}
use lite_chat_server.Database.Consistency.{BetweenUsers, IsConsistent}
use lite_chat_server.Sessions.{ClientSession, get_session_by_username}
use lite_chat_server.MessageDao.{Message, joined}
use lite_chat_server.World.{World}
use lite_chat_server.Messages.{push_offline_messages}
use lite_chat_server.Messages.Outcomes.{all_read, read_row, unread_between}
use lite_chat_server.Database.Sorting.{InOrder, by_time-InOrder, any-by_time, by_time-All}
use lite_chat_server.Wire.Calm.{calm}
use lite_chat_server.Messages.Joining.{joined-ForSession, joined-any, user_named-by_id}
use lite_chat_server.Messages.Delivery.{frames, marked, push_offline-calm, pushed}

by_time-nil : by_time [] ≡ []
unfolding by_time
by_time-nil = refl

-- A message that waits for the user with that id.
abbrev pub waits_for : ℕ → MessageRow → Bool
waits_for id row = row.receiver_id == id && not row.is_read

-- A row that waits behind a marking was not marked.
still_covered :
    (i j id : ℕ) (row : MessageRow) (rest : MessageRow → Bool)
    → (waits_for id row ≡ true → (from_to i j row || rest row) ≡ true)
    → waits_for id (if unread_between i j row then read_row row else row) ≡ true
    → rest (if unread_between i j row then read_row row else row) ≡ true
still_covered i j id row rest covered = go (unread_between i j row) refl
  where
    go :
        (b : Bool)
        → unread_between i j row ≡ b
        → waits_for id (if b then read_row row else row) ≡ true
        → rest (if b then read_row row else row) ≡ true
    go true e waits = absurd (ground (arith, waits))
    go false e waits = ground (arith, e, waits, covered waits)

module _ (q : MessageRow → Bool) (b : Bool) (x : MessageRow) (rows : List MessageRow) where
  kept_head : b ≡ true → q x ≡ true → any q (if b then x ∷ rows else rows) ≡ true
  kept_head e h = ground arith

  kept_tail : any q rows ≡ true → any q (if b then x ∷ rows else rows) ≡ true
  kept_tail h = ground arith

module _ ⦃host : Host⦄ where
  -- Marking clears what waits for the id, if of each waiting row there is a message.
  marked-clears :
      (id : ℕ) (messages : List Message) (db : Database)
      → All
          (λ row.
            waits_for id row ≡ true
            → any (λ msg. from_to msg.sender_id msg.receiver_id row) messages ≡ true)
          db.messages
      → All (λ row. waits_for id row ≡ false) (marked messages db).messages
  marked-clears id [] db a =
      All-map _ _ db.messages (λ row covered. not_true (waits_for id row) covered) a
    where
      not_true : (b : Bool) → (b ≡ true → false ≡ true) → b ≡ false
      not_true true k = sym (k refl)
      not_true false k = refl
  marked-clears id (msg ∷ messages) db a =
      marked-clears id messages (all_read msg.sender_id msg.receiver_id db) (
        All-update _ _ (unread_between msg.sender_id msg.receiver_id) read_row db.messages
          (λ row.
            still_covered msg.sender_id msg.receiver_id id row
              (λ r. any (λ m. from_to m.sender_id m.receiver_id r) messages))
          a)

  -- Each row that waits is among those that are read.
  waiting-found :
      (id : ℕ) (rows : List MessageRow)
      → All
          (λ row.
            waits_for id row ≡ true
            → any (λ r. from_to r.sender_id r.receiver_id row) (select (waits_for id) rows) ≡ true)
          rows
  waiting-found id [] = tt
  waiting-found id (x ∷ rows) = (
    (λ waits.
        kept_head (λ r. from_to r.sender_id r.receiver_id x) (waits_for id x) x
          (select (waits_for id) rows) waits (ground arith)),
    All-map _ _ rows
        (λ row k waits.
          kept_tail (λ r. from_to r.sender_id r.receiver_id row) (waits_for id x) x
            (select (waits_for id) rows) (k waits))
        (waiting-found id rows),
  )

  none_waits :
      (id : ℕ) (rows : List MessageRow)
      → All (λ row. waits_for id row ≡ false) rows
      → select (waits_for id) rows ≡ []
  none_waits id [] a = refl
  none_waits id (x ∷ rows) (h, a) = rw h (none_waits id rows a)

  pub unread_rows-select :
      (id : ℕ) (db : Database) → unread_rows id db ≡ by_time (select (waits_for id) db.messages)
  unfolding unread_rows
  unread_rows-select id db = refl

  unread_rows-All :
      (P : MessageRow → Type 0) (id : ℕ) (db : Database)
      → ((row : MessageRow) → waits_for id row ≡ true → P row)
      → All P (unread_rows id db)
  unread_rows-All P id db k =
      subst (All P) (sym (unread_rows-select id db))
        (by_time-All P _ (select-All P (waits_for id) k db.messages))

  -- The messages that PushOfflineMessages reads cover all rows that wait.
  module _ (id : ℕ) (db : Database) (c : IsConsistent db) where
    pub between :
        All (λ row. BetweenUsers db.users row.sender_id row.receiver_id) (unread_rows id db)
    between =
        subst (All _) (sym (unread_rows-select id db))
          (by_time-All _ _ (All-select _ (waits_for id) db.messages c.letters))

    inbox-size : length (joined db (unread_rows id db)) ≡ length (unread_rows id db)
    inbox-size = (joined-any db (λ i j. true) (unread_rows id db) between).1

    inbox-covers :
        All
          (λ row.
            waits_for id row ≡ true
            → any (λ msg. from_to msg.sender_id msg.receiver_id row) (joined db (unread_rows id db))
              ≡ true)
          db.messages
    inbox-covers =
        All-map _ _ db.messages
          (λ row k waits.
            (joined-any db (λ i j. from_to i j row) (unread_rows id db) between).0
            ∙ ap (any (λ r. from_to r.sender_id r.receiver_id row)) (unread_rows-select id db)
            ∙ any-by_time (λ r. from_to r.sender_id r.receiver_id row)
                (select (waits_for id) db.messages)
            ∙ k waits)
          (waiting-found id db.messages)

    inbox-cleared : unread_rows id (marked (joined db (unread_rows id db)) db) ≡ []
    inbox-cleared =
        unread_rows-select id (marked (joined db (unread_rows id db)) db)
        ∙ ap by_time
            (none_waits id _ (marked-clears id (joined db (unread_rows id db)) db inbox-covers))
        ∙ by_time-nil

-- If the tables keep their constraints, every statement is answered and send() takes all bytes, then
-- PushOfflineMessages, for a user whose name is bound to a session as it is spelled in the tables,
-- sends to that session a message frame and a notification for every unread message, in the order of
-- time and each once; it leaves no message to that user unread, and the sessions as they are.
pub push_offline_messages-delivers :
    ⦃host : Host⦄ (username : Str) (row : UserRow) (s : ClientSession) (w : World)
    → IsConsistent w.db
    → user_named username w.db ≡ some row
    → row.username ≡ username
    → get_session_by_username username w.sessions ≡ some s
    → let inbox = joined w.db (unread_rows row.user_id w.db) in
      let after : World = (push_offline_messages username (calm w)).1 in
      (after.outbox ≡ w.outbox ++ frames s.socket inbox)
      × (length inbox ≡ length (unread_rows row.user_id w.db))
      × InOrder (unread_rows row.user_id w.db)
      × (unread_rows row.user_id after.db ≡ [])
      × (after.sessions ≡ w.sessions)
push_offline_messages-delivers username row s w c known spelled there =
    let inbox = joined w.db (unread_rows row.user_id w.db) in
    let by_id : user_with_id row.user_id w.db ≡ some row =
      user_named-by_id username w.db row c.ids known in
    let to_session =
      joined-ForSession w.db (unread_rows row.user_id w.db) row s w by_id
        (ap (λ name. get_session_by_username name w.sessions) spelled ∙ there)
        (unread_rows-All (λ r. r.receiver_id ≡ row.user_id) row.user_id w.db
          (λ r e. ground arith)) in
    let run : (push_offline_messages username (calm w)).1 ≡ calm (pushed s.socket inbox w) =
      ap (λ (r : Unit {0} × World). r.1)
        (push_offline-calm username row s w known there to_session) in
    (
      ap (λ (v : World). v.outbox) run,
      inbox-size row.user_id w.db c,
      subst InOrder (sym (unread_rows-select row.user_id w.db)) (by_time-InOrder _),
      ap (λ (v : World). unread_rows row.user_id v.db) run ∙ inbox-cleared row.user_id w.db c,
      ap (λ (v : World). v.sessions) run,
    )
