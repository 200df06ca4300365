-- ===== src/Server/Dispatch.antt =====
-- Server::DispatchRequest: which manager answers which type, and the document that goes back.
use lite_chat_server.Common.{
  Option, Str, [], if◌then◌else◌, lit, none, pos, some, ℕ, ◌++◌, ◌==◌, ◌∷◌, nat_eq, str_eq,
}
use lite_chat_server.Host.{Host}
use lite_chat_server.Json.{Fields, Json, end, field, int, obj, str}
use lite_chat_server.World.{M, World, gets, on_sessions, or_else, pure, when, ◌>>=◌, ◌>>◌}
use lite_chat_server.Sessions.{get_session, update_heartbeat, write_session}
use lite_chat_server.Protocol.{Request, Response, reply, response}
use lite_chat_server.Wire.{send_data}
use lite_chat_server.Users.{handle_login, handle_query_status, handle_register, handle_update_user}
use lite_chat_server.Friends.{
  cache_friend_list, handle_add_friend, handle_delete_friend, handle_friend_list,
  handle_friend_status, handle_query_friend,
}
use lite_chat_server.Messages.{handle_history_messages, handle_send_message, push_offline_messages}
use lite_chat_server.Server.Parsing.{claim_session, read_head, read_request}

pub data Kind : Type 0 where
  register login update_user query_status add_friend del_friend : Kind
  friend_list friend_status query_friend send_msg history_msg heartbeat unknown : Kind

-- The ladder of `type == "..."`.
unfoldable pub kind_of : Str → Kind
kind_of type =
    if type == lit "REGISTER"
    then register
    else if type == lit "LOGIN"
    then login
    else if type == lit "UPDATE_USER"
    then update_user
    else if type == lit "QUERY_STATUS"
    then query_status
    else if type == lit "ADD_FRIEND"
    then add_friend
    else if type == lit "DEL_FRIEND"
    then del_friend
    else if type == lit "FRIEND_LIST"
    then friend_list
    else if type == lit "FRIEND_STATUS"
    then friend_status
    else if type == lit "QUERY_FRIEND"
    then query_friend
    else if type == lit "SEND_MSG"
    then send_msg
    else if type == lit "HISTORY_MSG"
    then history_msg
    else if type == lit "HEARTBEAT"
    then heartbeat
    else unknown

-- The name of the session of a socket; empty if there is none.
unfoldable pub session_name : ℕ → World → Str
session_name socket w = elim (get_session socket w.sessions) [
  | none ↦ []
  | some session ↦ session.username
]

module _ ⦃host : Host⦄ where
  unfoldable pub login_and_push : Request → M Response
  login_and_push request = do
    response ← handle_login request
    when (response.code == 0) (cache_friend_list request.username)
    when (response.code == 0) (push_offline_messages request.username)
    pure response

  unfoldable pub answer : Kind → Request → M Response
  answer register request = handle_register request
  answer login request = login_and_push request
  answer update_user request = handle_update_user request
  answer query_status request = handle_query_status request
  answer add_friend request = handle_add_friend request
  answer del_friend request = handle_delete_friend request
  answer friend_list request = handle_friend_list request
  answer friend_status request = handle_friend_status request
  answer query_friend request = handle_query_friend request
  answer send_msg request = handle_send_message request
  answer history_msg request = handle_history_messages request
  answer heartbeat request = reply 0 (lit "心跳正常")
  answer unknown request = reply 4002 (lit "未知的请求类型")

  -- response.data, read back; text that is no JSON goes out as a string
  abbrev data_fields : Str → Fields
  data_fields [] = end
  data_fields (c ∷ text) =
      field (lit "data")
        (elim (host.parse_json (c ∷ text)) [ none ↦ str (c ∷ text) | some value ↦ value ]) end

  unfoldable pub response_json : Str → Response → Json
  response_json type response = obj (
      field (lit "type") (str (type ++ lit "_RESPONSE")) (
        field (lit "code") (int (pos response.code))
          (field (lit "msg") (str response.msg) (data_fields response.data_json))))

  unfoldable pub parse_error_text : Str
  parse_error_text = lit "{\"type\":\"ERROR\",\"code\":4001,\"msg\":\"JSON解析失败\"}"

  -- From the request on. No handler throws: each method of the data access classes catches.
  unfoldable pub serve_request : ℕ → Request → M (Option (Unit {0}))
  serve_request socket request = do
    name ← gets (session_name socket)
    response ← answer (kind_of request.type) (claim_session name request)
    send_data socket (host.write_json (response_json request.type response))
    pure (some tt)

  -- `none`: an exception leaves DispatchRequest.
  unfoldable pub dispatch_request : ℕ → Str → M (Option (Unit {0}))
  dispatch_request socket text =
      or_else (host.parse_json text) (do send_data socket parse_error_text; pure (some tt))
        (λ root. or_else (read_head root) (pure none) (λ (type, node). (do
          now ← gets (λ w. w.now)
          on_sessions (write_session socket (update_heartbeat now))
          or_else (read_request type socket node) (pure none)
              (λ request. serve_request socket request))))
