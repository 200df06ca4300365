-- ===== src/Messages/Joining.antt =====
-- What the join of messages with their users gives, and whom it names.
use lite_chat_server.Common.{
  All, All-filter_map, find-All, Bool, List, Option, Pairwise, Str, [], any, ap, arith, false,
  false≢true, filter_map, find, if◌then◌else◌, length, none, refl, some, suc, sym, true, ℕ, ◌||◌,
  ◌∙◌, ◌∷◌, ◌≡◌, nat_eq,
}
use lite_chat_server.Host.{Host}
use lite_chat_server.Database.{
  Database, MessageRow, UserRow, has_id, has_name, user_named, user_with_id,
}
use lite_chat_server.Database.Consistency.{BetweenUsers, IsUser, OtherId}
use lite_chat_server.Sessions.{ClientSession, get_session_by_username}
use lite_chat_server.MessageDao.{Message, joined, named}
use lite_chat_server.World.{World}
use lite_chat_server.Messages.Delivery.{ForSession}

-- The row of a name is the row of its id.
find-by_id :
    (p : UserRow → Bool) (users : List UserRow) (row : UserRow)
    → Pairwise OtherId users
    → find p users ≡ some row
    → find (has_id row.user_id) users ≡ some row
find-by_id p [] row w e = absurd (cc e)
find-by_id p (u ∷ users) row (a, w) e =
    ground (arith, find-by_id p users row w, find-All (OtherId u) p users row a)

pub user_named-by_id :
    ⦃host : Host⦄ (name : Str) (db : Database) (row : UserRow)
    → Pairwise OtherId db.users
    → user_named name db ≡ some row
    → user_with_id row.user_id db ≡ some row
unfolding user_named user_with_id
user_named-by_id name db row w e = find-by_id (has_name name) db.users row w e

IsUser-found :
    (id : ℕ) (users : List UserRow)
    → IsUser users id
    → (row : UserRow) × (find (has_id id) users ≡ some row)
IsUser-found id [] e = absurd (false≢true e)
IsUser-found id (u ∷ users) e = go (has_id id u) (IsUser-found id users) e
  where
    go :
        (b : Bool)
        → (IsUser users id → (row : UserRow) × (find (has_id id) users ≡ some row))
        → (b || any (has_id id) users) ≡ true
        → (row : UserRow) × ((if b then some u else find (has_id id) users) ≡ some row)
    go true later e = (u, refl)
    go false later e = later e

module _ ⦃host : Host⦄ where
  named-some :
      (row : MessageRow) (a b : UserRow)
      → (msg : Message) × (named row (some a) (some b) ≡ some msg)
        × (msg.sender_id ≡ row.sender_id)
        × (msg.receiver_id ≡ row.receiver_id)
  named-some row a b = (_, refl, refl, refl)

  -- The receiver of a message is named as its row is.
  named-receiver :
      (r : MessageRow) (sender receiver : Option UserRow) (row : UserRow) (msg : Message)
      → receiver ≡ some row
      → named r sender receiver ≡ some msg
      → row.username ≡ msg.receiver_username
  named-receiver r none receiver row msg k e = absurd (cc e)
  named-receiver r (some a) none row msg k e = absurd (cc k)
  named-receiver r (some a) (some b) row msg k e =
      let same : b ≡ row = cc k in ap (λ (u : UserRow). u.username) (sym same) ∙ ap (name_of msg) e
    where
      name_of : Message → Option Message → Str
      name_of other none = other.receiver_username
      name_of other (some msg) = msg.receiver_username

  -- The join loses no row between users.
  named-found :
      (db : Database) (row : MessageRow)
      → BetweenUsers db.users row.sender_id row.receiver_id
      → (msg : Message) × (named row
            (user_with_id row.sender_id db)
            (user_with_id row.receiver_id db)
          ≡ some msg)
        × (msg.sender_id ≡ row.sender_id)
        × (msg.receiver_id ≡ row.receiver_id)
  unfolding user_with_id
  named-found db row (from, to) =
      let (a, e) = IsUser-found row.sender_id db.users from in
      let (b, e') = IsUser-found row.receiver_id db.users to in
      let (msg, full, from_same, to_same) = named-some row a b in
      (
        msg,
        ap (λ o. named row o (find (has_id row.receiver_id) db.users)) e
            ∙ ap (named row (some a)) e'
            ∙ full,
        from_same,
        to_same,
      )

  pub joined-any :
      (db : Database) (q : ℕ → ℕ → Bool) (rows : List MessageRow)
      → All (λ row. BetweenUsers db.users row.sender_id row.receiver_id) rows
      → (any (λ msg. q msg.sender_id msg.receiver_id) (joined db rows)
          ≡ any (λ row. q row.sender_id row.receiver_id) rows)
        × (length (joined db rows) ≡ length rows)
  unfolding joined
  joined-any db q [] a = (refl, refl)
  joined-any db q (row ∷ rows) (h, a) =
      let (msg, e, from, to) = named-found db row h in
      go (named row (user_with_id row.sender_id db) (user_with_id row.receiver_id db)) msg e from to
        (joined-any db q rows a)
    where
      later : List Message
      later =
          filter_map
            (λ row. named row (user_with_id row.sender_id db) (user_with_id row.receiver_id db))
            rows

      go :
          (o : Option Message) (msg : Message)
          → o ≡ some msg
          → msg.sender_id ≡ row.sender_id
          → msg.receiver_id ≡ row.receiver_id
          → (any (λ msg. q msg.sender_id msg.receiver_id) later
              ≡ any (λ row. q row.sender_id row.receiver_id) rows)
            × (length later ≡ length rows)
          → let all : List Message = elim o [ none ↦ later | some b ↦ b ∷ later ] in
            (any (λ msg. q msg.sender_id msg.receiver_id) all ≡ (
              q row.sender_id row.receiver_id || any (λ row. q row.sender_id row.receiver_id) rows))
            × (length all ≡ suc (length rows))
      go none msg e from to (same, size) = absurd (cc e)
      go (some m) msg e from to (same, size) =
          let k : m ≡ msg = cc e in
          let p : m.sender_id ≡ row.sender_id = ap (λ (x : Message). x.sender_id) k ∙ from in
          let p' : m.receiver_id ≡ row.receiver_id = ap (λ (x : Message). x.receiver_id) k ∙ to in
          (cc (p, p', same), ap suc size)

  -- A test of the messages that a row decides has the same result on both.
  pub joined-any_of :
      (db : Database) (on_message : Message → Bool) (on_row : MessageRow → Bool)
      → ((row : MessageRow) (sender receiver : Option UserRow) (msg : Message)
          → named row sender receiver ≡ some msg
          → on_message msg ≡ on_row row)
      → (rows : List MessageRow)
      → All (λ row. BetweenUsers db.users row.sender_id row.receiver_id) rows
      → any on_message (joined db rows) ≡ any on_row rows
  unfolding joined
  joined-any_of db on_message on_row same [] a = refl
  joined-any_of db on_message on_row same (row ∷ rows) (h, a) =
      let (msg, e, _, _) = named-found db row h in
      go (named row (user_with_id row.sender_id db) (user_with_id row.receiver_id db)) msg e
        (λ m k. same row _ _ m k) (joined-any_of db on_message on_row same rows a)
    where
      later : List Message
      later =
          filter_map
            (λ row. named row (user_with_id row.sender_id db) (user_with_id row.receiver_id db))
            rows

      go :
          (o : Option Message) (msg : Message)
          → o ≡ some msg
          → ((m : Message) → o ≡ some m → on_message m ≡ on_row row)
          → any on_message later ≡ any on_row rows
          → any on_message (elim o [ none ↦ later | some b ↦ b ∷ later ])
            ≡ (on_row row || any on_row rows)
      go none msg e alike rest = absurd (cc e)
      go (some m) msg e alike rest = cc (alike m refl, rest)

  -- A message carries the number, the sender and the text of its row.
  pub named-carries :
      (r : MessageRow) (sender receiver : Option UserRow) (msg : Message)
      → named r sender receiver ≡ some msg
      → (msg.message_id ≡ r.message_id) × (msg.sender_id ≡ r.sender_id) × (msg.content ≡ r.content)
  named-carries r none receiver msg e = absurd (cc e)
  named-carries r (some a) none msg e = absurd (cc e)
  named-carries r (some a) (some b) msg e =
      let or_row : Option Message → Message = λ o. elim o [ none ↦ msg | some m ↦ m ] in
      (
        ap (λ o. (or_row o).message_id) (sym e),
        ap (λ o. (or_row o).sender_id) (sym e),
        ap (λ o. (or_row o).content) (sym e),
      )

  -- The messages of an inbox go to the session of the name that the user bears.
  pub joined-ForSession :
      (db : Database) (rows : List MessageRow) (row : UserRow) (s : ClientSession) (w : World)
      → user_with_id row.user_id db ≡ some row
      → get_session_by_username row.username w.sessions ≡ some s
      → All (λ r. r.receiver_id ≡ row.user_id) rows
      → All (ForSession s w.sessions) (joined db rows)
  unfolding joined
  joined-ForSession db rows row s w known there a =
      All-filter_map (λ r. r.receiver_id ≡ row.user_id) (ForSession s w.sessions) _
        (λ r msg e to.
          let found : user_with_id r.receiver_id db ≡ some row =
            ap (λ id. user_with_id id db) to ∙ known in
          ap (λ name. get_session_by_username name w.sessions)
            (sym (
              named-receiver r (user_with_id r.sender_id db) (user_with_id r.receiver_id db) row msg
                found e))
          ∙ there)
        rows a
