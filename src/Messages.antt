-- ===== src/Messages.antt =====
-- system/message_manager.cpp. The send callback is Server::SendData; the logs are left out.
pub mod Frame
pub mod Outcomes
pub mod Online
pub mod History
pub mod Delivery
pub mod Joining
pub mod Inbox
pub mod Offline
pub mod Exchange
use lite_chat_server.Common.{
  Bool, List, Str, [], false, if◌then◌else◌, is_empty, leb, length, lit, ltb, negsuc, none, not,
  pos, some, take, true, ℕ, ℤ, ◌&&◌, ◌++◌, ◌==◌, ◌||◌, ◌∷◌, nat_eq, str_eq,
}
use lite_chat_server.Host.{Host}
use lite_chat_server.Json.{Items, Json, arr, bool, cons, end, field, nil, obj, str}
use lite_chat_server.World.{M, gets, or_else, pure, when, ◌>>=◌, ◌>>◌}
use lite_chat_server.Sessions.{get_session_by_username}
use lite_chat_server.UserDao.{get_user_id_by_username, get_user_online_status}
use lite_chat_server.MessageDao.{
  Message, get_history_messages, get_unread_messages, insert_message, mark_messages_as_read,
}
use lite_chat_server.Protocol.{Request, Response, entry, reply}
use lite_chat_server.Wire.{send_data}

abbrev pub max_message_size : ℕ
max_message_size = 65536

-- std::isspace in the C locale
abbrev pub is_space : ℕ → Bool
is_space c = c == 0x20 || (leb 0x09 c && leb c 0x0D)

unfoldable pub validate_message_content : Str → Bool
validate_message_content [] = false
validate_message_content (c ∷ content) = not (is_space c) || validate_message_content content

-- The summary of a notification: 50 bytes and "..." of a longer content.
unfoldable pub summary_of : Str → Str
summary_of content = if ltb 50 (length content) then take 50 content ++ lit "..." else content

unfoldable pub forward_json : Str → Str → Str → Json
forward_json sender content send_time = obj (
    field (lit "type") (str (lit "FORWARD_MSG")) (
      field (lit "data")
        (obj (
          field (lit "sender") (str sender)
            (field (lit "content") (str content) (field (lit "timestamp") (str send_time) end))))
        end))

unfoldable pub notify_json : Str → Str → Json
notify_json sender content = obj (
    field (lit "type") (str (lit "MSG_NOTIFY")) (
      field (lit "data")
        (obj (
          field (lit "sender") (str sender) (field (lit "summary") (str (summary_of content)) end)))
        end))

abbrev pub message_json : Message → Json
message_json msg = obj (
    field (lit "sender") (str msg.sender_username) (
      field (lit "content") (str msg.content) (
        field (lit "timestamp") (str msg.send_time)
          (field (lit "is_read") (bool msg.is_read) end))))

abbrev pub message_items : List Message → Items
message_items [] = nil
message_items (msg ∷ messages) = cons (message_json msg) (message_items messages)

-- `if(count <= 0 || count > 200) count = 50`
unfoldable pub clamp_count : ℤ → ℕ
clamp_count (negsuc n) = 50
clamp_count (pos n) = if n == 0 || ltb 200 n then 50 else n

module _ ⦃host : Host⦄ where
  -- `result` of sendCallback, and the marking behind it
  unfoldable pub deliver : ℕ → ℕ → ℕ → Str → M Bool
  deliver sender_id receiver_id socket text = do
    sent ← send_data socket text
    if sent then (do mark_messages_as_read sender_id receiver_id; pure true) else pure false

  unfoldable pub forward_message : ℕ → Str → ℕ → Str → Str → Str → M Bool
  forward_message sender_id sender receiver_id receiver content send_time = do
    session ← gets (λ w. get_session_by_username receiver w.sessions)
    or_else session (pure false) (λ s.
        deliver sender_id receiver_id s.socket
          (host.write_json (forward_json sender content send_time)))

  unfoldable pub send_notification : ℕ → Str → Str → M Bool
  send_notification socket sender content =
      send_data socket (host.write_json (notify_json sender content))

  unfoldable pub store_message : ℕ → ℕ → Str → M Bool
  store_message sender_id receiver_id content = insert_message sender_id receiver_id content

  -- A receiver that is online and has a session gets the message at once.
  unfoldable pub push_to_receiver : ℕ → ℕ → Request → M (Unit {0})
  push_to_receiver sender_id receiver_id request = do
    status ← get_user_online_status receiver_id
    when (elim status [ none ↦ false | some is_online ↦ is_online ])
        (do
          session ← gets (λ w. get_session_by_username request.target_username w.sessions)
          or_else session (pure tt) (λ s. (do
            forward_message sender_id request.username receiver_id request.target_username
                request.content []
            send_notification s.socket request.username request.content
            pure tt)))

  unfoldable pub send_between : Request → ℕ → ℕ → M Response
  send_between request sender_id receiver_id = do
    stored ← store_message sender_id receiver_id request.content
    if not stored
        then reply 5001 (lit "数据库操作失败")
        else do push_to_receiver sender_id receiver_id request; reply 0 (lit "发送成功")

  unfoldable pub handle_send_message : Request → M Response
  handle_send_message request =
      if not (validate_message_content request.content)
      then reply 4001 (lit "消息内容不能为空")
      else if ltb max_message_size (length request.content)
      then reply 4002 (lit "消息内容过长")
      else do
        sender ← get_user_id_by_username request.username
        or_else sender (reply 4003 (lit "发送者不存在")) (λ sender_id. (do
          receiver ← get_user_id_by_username request.target_username
          or_else receiver (reply 4003 (lit "接收方不存在"))
              (λ receiver_id. send_between request sender_id receiver_id)))

  unfoldable pub history_response : List Message → Response
  history_response messages = record {
    code = 0;
    msg = lit "查询成功";
    data_json = host.write_json (entry (lit "messages") (arr (message_items messages)));
  }

  unfoldable pub handle_history_messages : Request → M Response
  handle_history_messages request =
      if is_empty request.target_username then reply 1001 (lit "目标用户名不能为空") else do
        user ← get_user_id_by_username request.username
        or_else user (reply 4003 (lit "用户不存在")) (λ id1. (do
          target ← get_user_id_by_username request.target_username
          or_else target (reply 4003 (lit "目标用户不存在")) (λ id2. (do
            found ← get_history_messages id1 id2 (clamp_count request.count)
            or_else found (reply 5002 (lit "数据库查询失败"))
                (λ messages. pure (history_response messages))))))

  unfoldable pub push_one : ℕ → Message → M (Unit {0})
  push_one socket msg = do
    forward_message msg.sender_id msg.sender_username msg.receiver_id msg.receiver_username
        msg.content msg.send_time
    send_notification socket msg.sender_username msg.content
    pure tt

  -- `for(auto& msg : messages)`: forward each message, and notify.
  unfoldable pub push_each : ℕ → List Message → M (Unit {0})
  push_each socket [] = pure tt
  push_each socket (msg ∷ messages) = push_one socket msg >> push_each socket messages

  unfoldable pub push_if_any : Str → List Message → M (Unit {0})
  push_if_any username [] = pure tt
  push_if_any username (msg ∷ messages) = do
    session ← gets (λ w. get_session_by_username username w.sessions)
    or_else session (pure tt) (λ s. push_each s.socket (msg ∷ messages))

  unfoldable pub push_offline_messages : Str → M (Unit {0})
  push_offline_messages username = do
    user ← get_user_id_by_username username
    or_else user (pure tt) (λ user_id. (do
      found ← get_unread_messages user_id
      or_else found (pure tt) (λ messages. push_if_any username messages)))
