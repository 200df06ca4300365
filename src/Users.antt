-- ===== src/Users.antt =====
-- system/user_manager.cpp. The send callback is Server::SendData, which Server::Start sets before
-- any client is accepted; the logs are left out.
pub mod Frame
pub mod Soundness
pub mod Counting
pub mod Steady
pub mod Outcomes
pub mod Access
pub mod Parties
pub mod Columns
pub mod Kick
pub mod Exclusive
use lite_chat_server.Common.{
  Bool, List, Option, Str, [], false, if◌then◌else◌, is_empty, leb, length, lit, ltb, none, not,
  pos, some, true, ℕ, ◌%◌, ◌&&◌, ◌+◌, ◌-◌, ◌/◌, ◌==◌, ◌||◌, ◌∷◌, nat_eq, str_eq,
}
use lite_chat_server.Host.{Host}
use lite_chat_server.Json.{Json, end, field, int, obj, str}
use lite_chat_server.World.{M, gets, on_sessions, or_else, pure, update, when, ◌>>=◌, ◌>>◌}
use lite_chat_server.Sessions.{
  ClientSession, bind_username, get_session, get_session_by_username, set_username,
  update_heartbeat, write_session,
}
use lite_chat_server.UserDao.{
  check_username_exists, get_friends_of_user, get_user_by_username, get_user_id_by_username,
  get_user_online_status, insert_user, update_last_login_time, update_online_status,
  update_online_status_by_username, update_password, update_username,
}
use lite_chat_server.Protocol.{
  Request, Response, UserStatus, entry, offline, online, reply, response, status_text,
}
use lite_chat_server.Wire.{send_data}

-- [a-zA-Z0-9_]
abbrev pub name_char : ℕ → Bool
name_char c =
    (leb b'a' c && leb c b'z')
    || (leb b'A' c && leb c b'Z')
    || (leb b'0' c && leb c b'9')
    || c == b'_'

abbrev pub every : (ℕ → Bool) → Str → Bool
every p [] = true
every p (c ∷ s) = p c && every p s

-- std::regex_match against ^[a-zA-Z0-9_]{3,20}$
unfoldable pub validate_username : Str → Bool
validate_username name = leb 3 (length name) && leb (length name) 20 && every name_char name

unfoldable pub validate_password : Str → Bool
validate_password password = leb 6 (length password)

-- std::hex
abbrev pub hex_digit : ℕ → ℕ
hex_digit n = if ltb n 10 then b'0' + n else b'a' + (n - 10)

abbrev pub hex_bytes : Str → Str
hex_bytes [] = []
hex_bytes (b ∷ digest) = hex_digit (b / 16 % 16) ∷ hex_digit (b % 16) ∷ hex_bytes digest

abbrev pub status_name : UserStatus → Str
status_name online = status_text true
status_name offline = status_text false

unfoldable pub kicked_json : Json
kicked_json = obj (
    field (lit "type") (str (lit "KICKED"))
      (field (lit "code") (int (pos 2005)) (field (lit "msg") (str (lit "账号已在其他地方登录")) end)))

unfoldable pub status_json : Str → UserStatus → Json
status_json username status = obj (
    field (lit "type") (str (lit "STATUS_NOTIFY")) (
      field (lit "data")
        (obj (
          field (lit "username") (str username)
            (field (lit "status") (str (status_name status)) end)))
        end))

module _ ⦃host : Host⦄ where
  unfoldable pub md5_encrypt : Str → Str
  md5_encrypt password = hex_bytes (host.md5 password)

  unfoldable pub handle_register : Request → M Response
  handle_register request =
      if not (validate_username request.username)
      then reply 2001 (lit "用户名格式不合法")
      else if not (validate_password request.password)
      then reply 2001 (lit "密码格式不合法")
      else do
        taken ← check_username_exists request.username
        if taken then reply 2002 (lit "用户名已存在") else do
          stored ← insert_user request.username (md5_encrypt request.password)
          if stored then reply 0 (lit "注册成功") else reply 5001 (lit "数据库操作失败")

  -- `if(isOnline)`: sendCallback(friendSession->GetSocket(), notifyStr)
  unfoldable pub notify_one : Str → Str → Bool → M (Unit {0})
  notify_one text name is_online = if not is_online then pure tt else do
    session ← gets (λ w. get_session_by_username name w.sessions)
    or_else session (pure tt) (λ s. do send_data s.socket text; pure tt)

  -- for(auto& friendPair : friends)
  unfoldable pub notify_each : Str → List (Str × Bool) → M (Unit {0})
  notify_each text [] = pure tt
  notify_each text ((name, is_online) ∷ friends) =
      notify_one text name is_online >> notify_each text friends

  unfoldable pub notify_friends_status_change : Str → UserStatus → M (Unit {0})
  notify_friends_status_change username status = do
    id ← get_user_id_by_username username
    or_else id (pure tt) (λ user_id. (do
      friends ← get_friends_of_user user_id
      or_else friends (pure tt)
          (λ rows. notify_each (host.write_json (status_json username status)) rows)))

  unfoldable pub update_user_online_status : Str → Bool → M Bool
  update_user_online_status username is_online = update_online_status_by_username username is_online

  -- What happens to the session that already bears the name.
  unfoldable pub kick : ClientSession → M (Unit {0})
  kick old = do
    send_data old.socket (host.write_json kicked_json)
    on_sessions (write_session old.socket (set_username []))
    update (λ w. record w { shut = old.socket ∷ w.shut })

  unfoldable pub force_offline : ℕ → Str → M (Unit {0})
  force_offline user_id username = do
    update_online_status user_id false
    old ← gets (λ w. get_session_by_username username w.sessions)
    or_else old (pure tt) (λ session. kick session)

  -- The session of the client takes the name.
  unfoldable pub attach_session : ℕ → Str → M (Unit {0})
  attach_session socket username = do
    session ← gets (λ w. get_session socket w.sessions)
    or_else session (pure tt) (λ s. (do
      now ← gets (λ w. w.now)
      on_sessions (λ m.
          write_session socket (update_heartbeat now)
            (bind_username socket username (write_session socket (set_username username) m)))))

  -- The part of HandleLogin behind the checks.
  unfoldable pub complete_login : ℕ → Request → M Response
  complete_login user_id request = do
    status ← get_user_online_status user_id
    when (elim status [ none ↦ false | some is_online ↦ is_online ])
        (force_offline user_id request.username)
    update_online_status user_id true
    update_last_login_time user_id
    attach_session request.client_socket request.username
    notify_friends_status_change request.username online
    reply 0 (lit "登录成功")

  unfoldable pub handle_login : Request → M Response
  handle_login request =
      if not (validate_username request.username) then reply 2001 (lit "用户名格式不合法") else do
        found ← get_user_by_username request.username
        or_else found (reply 2003 (lit "用户不存在")) (λ (user_id, password_hash).
            if md5_encrypt request.password == password_hash
            then complete_login user_id request
            else reply 2004 (lit "密码错误"))

  -- The two halves of HandleUpdateUser: `none` goes on with `updated` set or not, `some` returns.
  unfoldable pub change_username : ℕ → Str → M (Option Response)
  change_username user_id new_username =
      if is_empty new_username
      then pure none
      else if not (validate_username new_username)
      then pure (some (response 2001 (lit "新用户名格式不合法")))
      else do
        taken ← check_username_exists new_username
        if taken then pure (some (response 2002 (lit "新用户名已存在"))) else do
          stored ← update_username user_id new_username
          pure (if stored then none else some (response 5001 (lit "数据库操作失败")))

  unfoldable pub change_password : ℕ → Str → M (Option Response)
  change_password user_id new_password =
      if is_empty new_password
      then pure none
      else if not (validate_password new_password)
      then pure (some (response 2001 (lit "新密码格式不合法")))
      else do
        stored ← update_password user_id (md5_encrypt new_password)
        pure (if stored then none else some (response 5001 (lit "数据库操作失败")))

  unfoldable pub apply_changes : ℕ → Request → M Response
  apply_changes user_id request = do
    renamed ← change_username user_id request.new_username
    or_else renamed
        ((do
          rekeyed ← change_password user_id request.new_password
          or_else rekeyed
              (if is_empty request.new_username && is_empty request.new_password
                then reply 1001 (lit "未修改任何信息")
                else reply 0 (lit "修改成功"))
              (λ r. pure r)))
        (λ r. pure r)

  unfoldable pub handle_update_user : Request → M Response
  handle_update_user request = do
    found ← get_user_by_username request.username
    or_else found (reply 2003 (lit "用户不存在")) (λ (user_id, password_hash).
        if md5_encrypt request.verify_password == password_hash
        then apply_changes user_id request
        else reply 2006 (lit "验证密码错误"))

  unfoldable pub online_response : Bool → Response
  online_response is_online = record {
    code = 0;
    msg = if is_online then lit "在线" else lit "离线";
    data_json = host.write_json (entry (lit "status") (str (status_text is_online)));
  }

  unfoldable pub handle_query_status : Request → M Response
  handle_query_status request = do
    found ← get_user_by_username request.username
    or_else found (reply 2003 (lit "用户不存在")) (λ (user_id, password_hash). (do
      status ← get_user_online_status user_id
      or_else status (reply 5002 (lit "数据库查询失败")) (λ is_online. pure (online_response is_online))))
