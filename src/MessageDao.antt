-- ===== src/MessageDao.antt =====
-- system/message_dao.cpp
use lite_chat_server.Common.{Bool, List, Option, Str, filter_map, none, some, take, ℕ}
use lite_chat_server.Host.{Host}
use lite_chat_server.Database.{
  Database, MessageRow, UserRow, history_rows, insert_message_row, mark_read, unread_rows,
  user_with_id,
}
use lite_chat_server.World.{M}
use lite_chat_server.World.Statement.{execute_query, execute_update}

pub record Message : Type 0 where
  pub message_id : ℕ
  pub sender_id : ℕ
  pub receiver_id : ℕ
  pub sender_username : Str
  pub receiver_username : Str
  pub content : Str
  pub send_time : Str
  pub is_read : Bool

module _ ⦃host : Host⦄ where
  -- One row of the result: the message joined with its sender and its receiver.
  abbrev pub named : MessageRow → Option UserRow → Option UserRow → Option Message
  named row (some sender) (some receiver) = some (record {
    message_id = row.message_id;
    sender_id = row.sender_id;
    receiver_id = row.receiver_id;
    sender_username = sender.username;
    receiver_username = receiver.username;
    content = row.content;
    send_time = host.datetime_text row.send_time;
    is_read = row.is_read;
  })
  named row none receiver = none
  named row sender none = none

  unfoldable pub joined : Database → List MessageRow → List Message
  joined db =
      filter_map
        (λ row. named row (user_with_id row.sender_id db) (user_with_id row.receiver_id db))

  unfoldable pub get_unread_messages : ℕ → M (Option (List Message))
  get_unread_messages id = execute_query (λ db. joined db (unread_rows id db))

  unfoldable pub get_history_messages : ℕ → ℕ → ℕ → M (Option (List Message))
  get_history_messages id1 id2 count =
      execute_query (λ db. take count (joined db (history_rows id1 id2 db)))

unfoldable pub insert_message : ℕ → ℕ → Str → M Bool
insert_message sender receiver content =
    execute_update (λ w. insert_message_row sender receiver content w.now w.db)

unfoldable pub mark_messages_as_read : ℕ → ℕ → M Bool
mark_messages_as_read sender receiver = execute_update (λ w. mark_read sender receiver w.db)
