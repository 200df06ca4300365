-- ===== src/Friends/Frame.antt =====
-- The friend manager touches no session.
use lite_chat_server.Common.{Bool, List, Str, insert, ℕ, nat_eq, str_eq}
use lite_chat_server.Host.{Host}
use lite_chat_server.World.{M, update}
use lite_chat_server.World.Keeps.{Keeps, Keeps-update, keeps_rules}
use lite_chat_server.World.Frame.{Invariant, On, execute_query-Keeps, execute_update-Keeps}
use lite_chat_server.FriendDao.{
  check_friendship, delete_friend, delete_messages_between_users, get_friend_list, insert_friend,
}
use lite_chat_server.Protocol.{Request, Response}
use lite_chat_server.Users.{online_response}
use lite_chat_server.Users.Frame.{get_user_id-Q, status-Q}
use lite_chat_server.Friends.{
  add_between, cache_friend_list, delete_between, handle_add_friend, handle_delete_friend,
  handle_friend_list, handle_friend_status, handle_query_friend, remove_friend_cache, usernames,
  with_parties, with_status,
}
use lite_chat_server.Database.{deletes_friend, deletes_messages, inserts_friend}

module _ ⦃host : Host⦄ (v : Invariant) where
  check-Q : (id1 id2 : ℕ) → Keeps (On v.R) (check_friendship id1 id2)
  unfolding check_friendship
  check-Q id1 id2 = search (keeps_rules, execute_query-Keeps v.R)

  list-Q : (id : ℕ) → Keeps (On v.R) (get_friend_list id)
  unfolding get_friend_list
  list-Q id = execute_query-Keeps v.R _

  insert-Q : (id1 id2 : ℕ) → Keeps (On v.R) (insert_friend id1 id2)
  unfolding insert_friend
  insert-Q id1 id2 = execute_update-Keeps v.R _ (λ w db h e. v.kept (inserts_friend id1 id2) h e)

  delete-Q : (id1 id2 : ℕ) → Keeps (On v.R) (delete_friend id1 id2)
  unfolding delete_friend
  delete-Q id1 id2 = execute_update-Keeps v.R _ (λ w db h e. v.kept (deletes_friend id1 id2) h e)

  clear-Q : (id1 id2 : ℕ) → Keeps (On v.R) (delete_messages_between_users id1 id2)
  unfolding delete_messages_between_users
  clear-Q id1 id2 = execute_update-Keeps v.R _ (λ w db h e. v.kept (deletes_messages id1 id2) h e)

  parties-Q :
      (request : Request) (rest : ℕ → ℕ → M Response)
      → ((i j : ℕ) → Keeps (On v.R) (rest i j))
      → Keeps (On v.R) (with_parties request rest)
  unfolding with_parties
  parties-Q request rest k = search (keeps_rules, get_user_id-Q v) depth 9

  add_between-Q : (i j : ℕ) → Keeps (On v.R) (add_between i j)
  unfolding add_between
  add_between-Q i j = search (keeps_rules, check-Q, insert-Q) depth 9

  delete_between-Q : (i j : ℕ) → Keeps (On v.R) (delete_between i j)
  unfolding delete_between
  delete_between-Q i j = search (keeps_rules, check-Q, delete-Q, clear-Q) depth 9

  pub add_friend-Q : (request : Request) → Keeps (On v.R) (handle_add_friend request)
  unfolding handle_add_friend
  add_friend-Q request = search (keeps_rules, parties-Q, add_between-Q) depth 9

  pub delete_friend-Q : (request : Request) → Keeps (On v.R) (handle_delete_friend request)
  unfolding handle_delete_friend
  delete_friend-Q request = search (keeps_rules, parties-Q, delete_between-Q) depth 9

  pub friend_list-Q : (request : Request) → Keeps (On v.R) (handle_friend_list request)
  unfolding handle_friend_list
  friend_list-Q request = search (keeps_rules, get_user_id-Q v, list-Q) depth 9

  with_status-Q : (request : Request) (f : Bool → Response) → Keeps (On v.R) (with_status request f)
  unfolding with_status
  with_status-Q request f = search (keeps_rules, get_user_id-Q v, status-Q v) depth 9

  pub friend_status-Q : (request : Request) → Keeps (On v.R) (handle_friend_status request)
  unfolding handle_friend_status
  friend_status-Q request = with_status-Q request online_response

  pub query_friend-Q : (request : Request) → Keeps (On v.R) (handle_query_friend request)
  unfolding handle_query_friend
  query_friend-Q request = with_status-Q request _

  remember-Q :
      (name : Str) (rows : List (Str × Bool))
      → Keeps (On v.R) (
          update (λ w. record w {
            cached_friend_lists = insert name (usernames rows) w.cached_friend_lists;
          }))
  remember-Q name rows = Keeps-update _ (λ w h. h)

  pub cache_friends-Q : (name : Str) → Keeps (On v.R) (cache_friend_list name)
  unfolding cache_friend_list
  cache_friends-Q name = search (keeps_rules, get_user_id-Q v, list-Q, remember-Q) depth 9

  pub uncache-Q : (name : Str) → Keeps (On v.R) (remove_friend_cache name)
  unfolding remove_friend_cache
  uncache-Q name = Keeps-update _ (λ w h. h)
