-- ===== src/Messages/Frame.antt =====
-- The message manager touches no session.
use lite_chat_server.Common.{List, Str, [], ℕ, ◌∷◌}
use lite_chat_server.Host.{Host}
use lite_chat_server.Database.{inserts_message, marks_read}
use lite_chat_server.World.Keeps.{Keeps, Keeps-pure, Keeps-then, keeps_rules}
use lite_chat_server.World.Frame.{
  Invariant, On, execute_query-Keeps, execute_update-Keeps, send_data-Keeps,
}
use lite_chat_server.MessageDao.{
  Message, get_history_messages, get_unread_messages, insert_message, mark_messages_as_read,
}
use lite_chat_server.Protocol.{Request}
use lite_chat_server.Users.Frame.{get_user_id-Q, status-Q}
use lite_chat_server.Messages.{
  deliver, forward_message, handle_history_messages, handle_send_message, push_each, push_if_any,
  push_offline_messages, push_one, push_to_receiver, send_between, send_notification, store_message,
}

module _ ⦃host : Host⦄ (v : Invariant) where
  unread-Q : (id : ℕ) → Keeps (On v.R) (get_unread_messages id)
  unfolding get_unread_messages
  unread-Q id = execute_query-Keeps v.R _

  history_rows-Q : (id1 id2 n : ℕ) → Keeps (On v.R) (get_history_messages id1 id2 n)
  unfolding get_history_messages
  history_rows-Q id1 id2 n = execute_query-Keeps v.R _

  store-Q : (id1 id2 : ℕ) (content : Str) → Keeps (On v.R) (store_message id1 id2 content)
  unfolding store_message insert_message
  store-Q id1 id2 content =
      execute_update-Keeps v.R _ (λ w db h e. v.kept (inserts_message id1 id2 content w.now) h e)

  mark-Q : (id1 id2 : ℕ) → Keeps (On v.R) (mark_messages_as_read id1 id2)
  unfolding mark_messages_as_read
  mark-Q id1 id2 = execute_update-Keeps v.R _ (λ w db h e. v.kept (marks_read id1 id2) h e)

  deliver-Q : (i j s : ℕ) (text : Str) → Keeps (On v.R) (deliver i j s text)
  unfolding deliver
  deliver-Q i j s text = search (keeps_rules, send_data-Keeps v.R, mark-Q) depth 9

  forward-Q : (i : ℕ) (a : Str) (j : ℕ) (b c t : Str) → Keeps (On v.R) (forward_message i a j b c t)
  unfolding forward_message
  forward-Q i a j b c t = search (keeps_rules, deliver-Q) depth 9

  notification-Q : (s : ℕ) (a c : Str) → Keeps (On v.R) (send_notification s a c)
  unfolding send_notification
  notification-Q s a c = send_data-Keeps v.R s _

  push_receiver-Q : (i j : ℕ) (request : Request) → Keeps (On v.R) (push_to_receiver i j request)
  unfolding push_to_receiver
  push_receiver-Q i j request = search (keeps_rules, status-Q v, forward-Q, notification-Q) depth 12

  send_between-Q : (request : Request) (i j : ℕ) → Keeps (On v.R) (send_between request i j)
  unfolding send_between
  send_between-Q request i j = search (keeps_rules, store-Q, push_receiver-Q) depth 9

  pub send_message-Q : (request : Request) → Keeps (On v.R) (handle_send_message request)
  unfolding handle_send_message
  send_message-Q request = search (keeps_rules, get_user_id-Q v, send_between-Q) depth 12

  pub history-Q : (request : Request) → Keeps (On v.R) (handle_history_messages request)
  unfolding handle_history_messages
  history-Q request = search (keeps_rules, get_user_id-Q v, history_rows-Q) depth 12

  push_one-Q : (s : ℕ) (msg : Message) → Keeps (On v.R) (push_one s msg)
  unfolding push_one
  push_one-Q s msg = search (keeps_rules, forward-Q, notification-Q) depth 9

  push_each-Q : (s : ℕ) (messages : List Message) → Keeps (On v.R) (push_each s messages)
  unfolding push_each
  push_each-Q s [] = Keeps-pure tt
  push_each-Q s (msg ∷ messages) = Keeps-then _ _ (push_one-Q s msg) (push_each-Q s messages)

  push_if_any-Q :
      (name : Str) (messages : List Message) → Keeps (On v.R) (push_if_any name messages)
  unfolding push_if_any
  push_if_any-Q name [] = Keeps-pure tt
  push_if_any-Q name (msg ∷ messages) = search (keeps_rules, push_each-Q) depth 9

  pub push_offline-Q : (name : Str) → Keeps (On v.R) (push_offline_messages name)
  unfolding push_offline_messages
  push_offline-Q name = search (keeps_rules, get_user_id-Q v, unread-Q, push_if_any-Q) depth 9
