-- ===== src/Friends.antt =====
-- system/friend_manager.cpp. The logs are left out.
pub mod Frame
pub mod Outcomes
pub mod Removal
use lite_chat_server.Common.{
  Bool, List, Str, [], erase, false, if◌then◌else◌, insert, is_empty, lit, lookup, none, not, some,
  ℕ, ◌==◌, ◌∷◌, nat_eq, str_eq,
}
use lite_chat_server.Host.{Host}
use lite_chat_server.Json.{Items, arr, cons, end, field, nil, obj, str}
use lite_chat_server.World.{M, gets, or_else, pure, update, ◌>>=◌, ◌>>◌}
use lite_chat_server.UserDao.{get_user_id_by_username, get_user_online_status}
use lite_chat_server.FriendDao.{
  check_friendship, delete_friend, delete_messages_between_users, get_friend_list, insert_friend,
}
use lite_chat_server.Protocol.{Request, Response, entry, reply, status_text}
use lite_chat_server.Users.{online_response}

-- An empty target falls back on the user's own name.
abbrev pub target_of : Request → Str
target_of request =
    if is_empty request.target_username then request.username else request.target_username

abbrev pub friend_items : List (Str × Bool) → Items
friend_items [] = nil
friend_items ((name, is_online) ∷ friends) =
    cons
      (obj (
        field (lit "username") (str name) (field (lit "status") (str (status_text is_online)) end)))
      (friend_items friends)

abbrev pub usernames : List (Str × Bool) → List Str
usernames [] = []
usernames ((name, is_online) ∷ friends) = name ∷ usernames friends

module _ ⦃host : Host⦄ where
  -- Both parties of a friendship request: the early returns 2003 and 3001.
  unfoldable pub with_parties : Request → (ℕ → ℕ → M Response) → M Response
  with_parties request rest = do
    user ← get_user_id_by_username request.username
    or_else user (reply 2003 (lit "用户不存在")) (λ user_id. (do
      target ← get_user_id_by_username (target_of request)
      or_else target (reply 3001 (lit "目标用户不存在")) (λ target_id. rest user_id target_id)))

  unfoldable pub add_between : ℕ → ℕ → M Response
  add_between user_id target_id = do
    already ← check_friendship user_id target_id
    if already then reply 3002 (lit "已经是好友关系") else do
      stored ← insert_friend user_id target_id
      if stored then reply 0 (lit "添加好友成功") else reply 5001 (lit "数据库操作失败")

  unfoldable pub handle_add_friend : Request → M Response
  handle_add_friend request =
      if is_empty (target_of request)
      then reply 1001 (lit "目标用户名不能为空")
      else if request.username == target_of request
      then reply 3003 (lit "不能添加自己为好友")
      else with_parties request add_between

  unfoldable pub delete_between : ℕ → ℕ → M Response
  delete_between user_id target_id = do
    friends ← check_friendship user_id target_id
    if not friends then reply 3004 (lit "不是好友关系") else do
      removed ← delete_friend user_id target_id
      if not removed
          then reply 5001 (lit "数据库操作失败")
          else do delete_messages_between_users user_id target_id; reply 0 (lit "删除好友成功")

  unfoldable pub handle_delete_friend : Request → M Response
  handle_delete_friend request =
      if is_empty (target_of request)
      then reply 1001 (lit "目标用户名不能为空")
      else with_parties request delete_between

  unfoldable pub friends_response : List (Str × Bool) → Response
  friends_response friends = record {
    code = 0;
    msg = lit "查询成功";
    data_json = host.write_json (entry (lit "friends") (arr (friend_items friends)));
  }

  unfoldable pub handle_friend_list : Request → M Response
  handle_friend_list request = do
    user ← get_user_id_by_username request.username
    or_else user (reply 2003 (lit "用户不存在")) (λ user_id. (do
      friends ← get_friend_list user_id
      or_else friends (reply 5002 (lit "数据库查询失败")) (λ rows. pure (friends_response rows))))

  -- The common part of HandleFriendStatus and HandleQueryFriend.
  unfoldable pub with_status : Request → (Bool → Response) → M Response
  with_status request answer =
      if is_empty (target_of request) then reply 1001 (lit "目标用户名不能为空") else do
        target ← get_user_id_by_username (target_of request)
        or_else target (reply 3001 (lit "目标用户不存在")) (λ target_id. (do
          status ← get_user_online_status target_id
          or_else status (reply 5002 (lit "数据库查询失败")) (λ is_online. pure (answer is_online))))

  unfoldable pub handle_friend_status : Request → M Response
  handle_friend_status request = with_status request online_response

  unfoldable pub query_response : Str → Bool → Response
  query_response target is_online = record {
    code = 0;
    msg = lit "查询成功";
    data_json = host.write_json (
        obj (
          field (lit "username") (str target)
            (field (lit "status") (str (status_text is_online)) end)));
  }

  unfoldable pub handle_query_friend : Request → M Response
  handle_query_friend request = with_status request (query_response (target_of request))

  unfoldable pub check_friendship_by_name : Str → Str → M Bool
  check_friendship_by_name username1 username2 = do
    user1 ← get_user_id_by_username username1
    or_else user1 (pure false) (λ id1. (do
      user2 ← get_user_id_by_username username2
      or_else user2 (pure false) (λ id2. check_friendship id1 id2)))

  unfoldable pub cache_friend_list : Str → M (Unit {0})
  cache_friend_list username = do
    user ← get_user_id_by_username username
    or_else user (pure tt) (λ user_id. (do
      friends ← get_friend_list user_id
      or_else friends (pure tt) (λ rows. update (λ w. record w {
        cached_friend_lists = insert username (usernames rows) w.cached_friend_lists;
      }))))

unfoldable pub remove_friend_cache : Str → M (Unit {0})
remove_friend_cache username =
    update (λ w. record w { cached_friend_lists = erase username w.cached_friend_lists })

unfoldable pub get_cached_friend_list : Str → M (List Str)
get_cached_friend_list username =
    gets (λ w. elim (lookup username w.cached_friend_lists) [ none ↦ [] | some names ↦ names ])
