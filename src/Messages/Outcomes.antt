-- ===== src/Messages/Outcomes.antt =====
-- What HandleSendMessage answers, and what it has stored by then.
use lite_chat_server.Common.{
  Bool, Str, ap, arith, false, inl, inr, length, ltb, not, refl, some, sym, true, update_where,
  update_where-idempotent, ℕ, ◌&&◌, ◌∙◌, ◌≡◌, ◌⊎◌,
}
use lite_chat_server.Host.{Host}
use lite_chat_server.Database.{Database, MessageRow, from_to, insert_message_row, mark_read}
use lite_chat_server.Sessions.{SessionManager}
use lite_chat_server.UserDao.{get_user_online_status}
use lite_chat_server.MessageDao.{insert_message, mark_messages_as_read}
use lite_chat_server.Protocol.{Request}
use lite_chat_server.World.Keeps.{Keeps, keeps_rules}
use lite_chat_server.World.Frame.{On, execute_query-Keeps, execute_update-Keeps, send_data-Keeps}
use lite_chat_server.Messages.{
  deliver, forward_message, handle_send_message, max_message_size, push_to_receiver, send_between,
  send_notification, store_message, validate_message_content,
}
use lite_chat_server.World.Yields.{
  Same, Yields, Yields-bind, Yields-given, Yields-if, Yields-map, Yields-or_else, Yields-pure,
  execute_timed-Yields,
}
use lite_chat_server.Users.Parties.{Answered, Refused, Settled, get_user_id-Yields, reply-Refused}
use lite_chat_server.World.{World}

-- A row that is marked is not marked again.
abbrev pub unread_between : ℕ → ℕ → MessageRow → Bool
unread_between i j row = from_to i j row && not row.is_read

abbrev pub read_row : MessageRow → MessageRow
read_row row = record row { is_read = true }

abbrev pub all_read : ℕ → ℕ → Database → Database
all_read i j db = record db { messages = update_where (unread_between i j) read_row db.messages }

all_read-idempotent : (i j : ℕ) (db : Database) → all_read i j (all_read i j db) ≡ all_read i j db
all_read-idempotent i j db =
    ap (λ rows. record db { messages = rows })
      (update_where-idempotent (unread_between i j) read_row db.messages (λ row. ground arith))

mark_read-idempotent :
    (i j : ℕ) (db db1 db2 : Database)
    → mark_read i j db ≡ some db1
    → mark_read i j db1 ≡ some db2
    → mark_read i j db ≡ some db2
unfolding mark_read
mark_read-idempotent i j db db1 db2 e e' =
    let p : all_read i j db ≡ db1 = cc e in
    let q : all_read i j db1 ≡ db2 = cc e' in
    ap some (sym (all_read-idempotent i j db) ∙ ap (all_read i j) p ∙ q)

module _ ⦃host : Host⦄ (m : SessionManager) (db : Database) (n : ℕ) (content : Str) where
  -- The message is stored with the time of some moment; then nothing else has changed, or every unread
  -- message of that sender to that receiver, this one included, is marked as read.
  abbrev pub Stored : ℕ → ℕ → Database → Type 0
  Stored i j db' =
      (now : ℕ) × (db1 : Database) × (insert_message_row i j content now db ≡ some db1)
      × ((db' ≡ db1) ⊎ (mark_read i j db1 ≡ some db'))

  abbrev InStore : ℕ → ℕ → SessionManager → Database → ℕ → Type 0
  InStore i j m' db' n' = (m' ≡ m) × Stored i j db' × (n' ≡ n)

  mark-InStore : (i j : ℕ) → Keeps (On (InStore i j)) (mark_messages_as_read i j)
  unfolding mark_messages_as_read
  mark-InStore i j =
      execute_update-Keeps (InStore i j) (λ w. mark_read i j w.db)
        (λ w db' (p, s, q) e. (p, marked w.db db' s e, q))
    where
      marked : (db1 db2 : Database) → Stored i j db1 → mark_read i j db1 ≡ some db2 → Stored i j db2
      marked db1 db2 (now, d, e, inl same) e' =
          (now, d, e, inr (ap (mark_read i j) (sym same) ∙ e'))
      marked db1 db2 (now, d, e, inr e1) e' =
          (now, d, e, inr (mark_read-idempotent i j d db1 db2 e1 e'))

  deliver-InStore : (i j s : ℕ) (text : Str) → Keeps (On (InStore i j)) (deliver i j s text)
  unfolding deliver
  deliver-InStore i j s text =
      search (keeps_rules, send_data-Keeps (InStore i j), mark-InStore) depth 9

  forward-InStore :
      (i : ℕ) (a : Str) (j : ℕ) (b c t : Str)
      → Keeps (On (InStore i j)) (forward_message i a j b c t)
  unfolding forward_message
  forward-InStore i a j b c t = search (keeps_rules, deliver-InStore) depth 9

  notification-InStore :
      (i j s : ℕ) (a c : Str) → Keeps (On (InStore i j)) (send_notification s a c)
  unfolding send_notification
  notification-InStore i j s a c = send_data-Keeps (InStore i j) s _

  status-InStore : (i j id : ℕ) → Keeps (On (InStore i j)) (get_user_online_status id)
  unfolding get_user_online_status
  status-InStore i j id = search (keeps_rules, execute_query-Keeps (InStore i j))

  push-InStore :
      (i j : ℕ) (request : Request) → Keeps (On (InStore i j)) (push_to_receiver i j request)
  unfolding push_to_receiver
  push-InStore i j request =
      search (keeps_rules, status-InStore, forward-InStore, notification-InStore) depth 12

  send_between-Yields :
      (request : Request) (i j : ℕ)
      → request.content ≡ content
      → Yields (Same m db n) (Answered m db n (Stored i j)) (send_between request i j)
  unfolding send_between store_message insert_message
  send_between-Yields request i j same_content =
      Yields-bind _ _
        (execute_timed-Yields m db n (λ now. insert_message_row i j request.content now))
        λ stored.
          Yields-if (not stored) _ _
            (λ lost. Yields-pure _ λ w h. elim h [
              | inl (_, same) ↦ inl ((λ e. omega (arith, e)), same)
              | inr (e, _) ↦ absurd (ground (arith, lost, e))
            ])
            (λ kept.
              Yields-bind {Q = λ _. On (InStore i j)} _ _
                (record { at = λ w h. (push-InStore i j request).at w (in_store stored kept w h) })
                λ _. Yields-pure _ (λ w (p, s, q). inr (refl, (w.db, s, (p, refl, q)))))
    where
      in_store :
          (stored : Bool)
          → not stored ≡ false
          → (w : World)
          → ((stored ≡ false) × Same m db n w)
            ⊎ ((stored ≡ true)
                × ((db1 : Database) × ((now : ℕ) × (insert_message_row i j request.content now db
                        ≡ some db1))
                    × Same m db1 n w))
          → On (InStore i j) w
      in_store stored kept w (inl (e, _)) = absurd (ground (arith, kept, e))
      in_store stored kept w (inr (_, (db1, (now, e), (p, q, r)))) = (
        p,
        (now, db1, ap (λ text. insert_message_row i j text now db) (sym same_content) ∙ e, inl q),
        r,
      )

  send_message-Yields :
      (request : Request)
      → request.content ≡ content
      → Yields
          (Same m db n)
          (λ r w.
            Refused m db n r w
            ⊎ ((validate_message_content content ≡ true)
                × Settled m db n Stored request.username request.target_username r w))
          (handle_send_message request)
  unfolding handle_send_message
  send_message-Yields request same_content =
      Yields-if (not (validate_message_content request.content)) _ _
        (λ _. reply-Refused m db n 4001 _ (omega arith) (λ w h. h))
        λ valid.
          Yields-if (ltb max_message_size (length request.content)) _ _
            (λ _. reply-Refused m db n 4002 _ (omega arith) (λ w h. h))
            λ _. Yields-bind _ _ (get_user_id-Yields m db n request.username) λ sender.
              Yields-given _ λ known.
                Yields-or_else sender _ _
                  (λ _. reply-Refused m db n 4003 _ (omega arith) (λ w h. h))
                  λ i e.
                    Yields-bind _ _ (get_user_id-Yields m db n request.target_username) λ receiver.
                      Yields-given _ λ known'.
                        Yields-or_else receiver _ _
                          (λ _. reply-Refused m db n 4003 _ (omega arith) (λ w h. h))
                          λ j e'.
                            Yields-map (send_between request i j)
                              (λ r w h. elim h [
                                | inl refused ↦ inl refused
                                | inr (ok, done) ↦ inr (
                                  ap validate_message_content (sym same_content)
                                      ∙ ground (arith, valid),
                                  inr (ok, (i, j, known i e, known' j e', done)),
                                )
                              ])
                              (send_between-Yields request i j same_content)

-- Whatever the database and the network answer: a message is refused with a code other than 0 and has
-- changed neither the tables nor the sessions, or its content is valid, it has the code 0, the tables
-- are the old ones with the message from the id of the sender to that of the receiver, and besides
-- either nothing else has changed or every unread message of that sender to that receiver, this one
-- included, is marked as read; and the sessions are what they were.
pub handle_send_message-outcome :
    ⦃host : Host⦄ (request : Request) (w : World)
    → Refused w.sessions w.db w.current_connections
        (handle_send_message request w).0
        (handle_send_message request w).1
      ⊎ ((validate_message_content request.content ≡ true)
          × Settled w.sessions w.db w.current_connections
              (Stored w.sessions w.db w.current_connections request.content)
              request.username
              request.target_username
              (handle_send_message request w).0
              (handle_send_message request w).1)
handle_send_message-outcome request w =
    (send_message-Yields w.sessions w.db w.current_connections request.content request refl).at w
      (refl, refl, refl)
