-- ===== src/Users/Frame.antt =====
-- The actions of the user manager that touch no session.
use lite_chat_server.Common.{Bool, List, Str, [], ℕ, ◌∷◌}
use lite_chat_server.Host.{Host}
use lite_chat_server.World.Keeps.{Keeps, Keeps-pure, Keeps-then, keeps_rules}
use lite_chat_server.World.Frame.{
  Invariant, On, execute_query-Keeps, execute_update-Keeps, send_data-Keeps,
}
use lite_chat_server.UserDao.{
  check_username_exists, get_friends_of_user, get_user_by_username, get_user_id_by_username,
  get_user_online_status, insert_user, update_last_login_time, update_online_status,
  update_online_status_by_username, update_password, update_username,
}
use lite_chat_server.Protocol.{Request, UserStatus}
use lite_chat_server.Users.{
  apply_changes, change_password, change_username, handle_query_status, handle_register,
  handle_update_user, notify_each, notify_friends_status_change, notify_one,
  update_user_online_status,
}
use lite_chat_server.Database.{
  inserts_user, sets_login_time, sets_online, sets_online_named, sets_user_name, sets_user_password,
}

module _ ⦃host : Host⦄ (v : Invariant) where
  pub get_user_id-Q : (name : Str) → Keeps (On v.R) (get_user_id_by_username name)
  unfolding get_user_id_by_username
  get_user_id-Q name = search (keeps_rules, execute_query-Keeps v.R)

  pub get_user-Q : (name : Str) → Keeps (On v.R) (get_user_by_username name)
  unfolding get_user_by_username
  get_user-Q name = search (keeps_rules, execute_query-Keeps v.R)

  pub status-Q : (id : ℕ) → Keeps (On v.R) (get_user_online_status id)
  unfolding get_user_online_status
  status-Q id = search (keeps_rules, execute_query-Keeps v.R)

  exists-Q : (name : Str) → Keeps (On v.R) (check_username_exists name)
  unfolding check_username_exists
  exists-Q name = search (keeps_rules, execute_query-Keeps v.R)

  friends-Q : (id : ℕ) → Keeps (On v.R) (get_friends_of_user id)
  unfolding get_friends_of_user
  friends-Q id = execute_query-Keeps v.R _

  insert_user-Q : (name hash : Str) → Keeps (On v.R) (insert_user name hash)
  unfolding insert_user
  insert_user-Q name hash =
      execute_update-Keeps v.R _ (λ w db h e. v.kept (inserts_user name hash) h e)

  update_username-Q : (id : ℕ) (name : Str) → Keeps (On v.R) (update_username id name)
  unfolding update_username
  update_username-Q id name =
      execute_update-Keeps v.R _ (λ w db h e. v.kept (sets_user_name id name) h e)

  update_password-Q : (id : ℕ) (hash : Str) → Keeps (On v.R) (update_password id hash)
  unfolding update_password
  update_password-Q id hash =
      execute_update-Keeps v.R _ (λ w db h e. v.kept (sets_user_password id hash) h e)

  pub set_status-Q : (id : ℕ) (b : Bool) → Keeps (On v.R) (update_online_status id b)
  unfolding update_online_status
  set_status-Q id b = execute_update-Keeps v.R _ (λ w db h e. v.kept (sets_online id b) h e)

  pub login_time-Q : (id : ℕ) → Keeps (On v.R) (update_last_login_time id)
  unfolding update_last_login_time
  login_time-Q id = execute_update-Keeps v.R _ (λ w db h e. v.kept (sets_login_time id w.now) h e)

  pub user_status-Q : (name : Str) (b : Bool) → Keeps (On v.R) (update_user_online_status name b)
  unfolding update_user_online_status update_online_status_by_username
  user_status-Q name b =
      execute_update-Keeps v.R _ (λ w db h e. v.kept (sets_online_named name b) h e)

  notify_one-Q : (text name : Str) (b : Bool) → Keeps (On v.R) (notify_one text name b)
  unfolding notify_one
  notify_one-Q text name b = search (keeps_rules, send_data-Keeps v.R) depth 9

  notify_each-Q :
      (text : Str) (friends : List (Str × Bool)) → Keeps (On v.R) (notify_each text friends)
  unfolding notify_each
  notify_each-Q text [] = Keeps-pure tt
  notify_each-Q text ((name, is_online) ∷ friends) =
      Keeps-then _ _ (notify_one-Q text name is_online) (notify_each-Q text friends)

  pub notify-Q :
      (name : Str) (status : UserStatus) → Keeps (On v.R) (notify_friends_status_change name status)
  unfolding notify_friends_status_change
  notify-Q name status = search (keeps_rules, get_user_id-Q, friends-Q, notify_each-Q) depth 9

  pub register-Q : (request : Request) → Keeps (On v.R) (handle_register request)
  unfolding handle_register
  register-Q request = search (keeps_rules, exists-Q, insert_user-Q) depth 9

  change_username-Q : (id : ℕ) (name : Str) → Keeps (On v.R) (change_username id name)
  unfolding change_username
  change_username-Q id name = search (keeps_rules, exists-Q, update_username-Q) depth 9

  change_password-Q : (id : ℕ) (name : Str) → Keeps (On v.R) (change_password id name)
  unfolding change_password
  change_password-Q id name = search (keeps_rules, update_password-Q) depth 9

  apply_changes-Q : (id : ℕ) (request : Request) → Keeps (On v.R) (apply_changes id request)
  unfolding apply_changes
  apply_changes-Q id request = search (keeps_rules, change_username-Q, change_password-Q) depth 9

  pub update_user-Q : (request : Request) → Keeps (On v.R) (handle_update_user request)
  unfolding handle_update_user
  update_user-Q request = search (keeps_rules, get_user-Q, apply_changes-Q) depth 9

  pub query_status-Q : (request : Request) → Keeps (On v.R) (handle_query_status request)
  unfolding handle_query_status
  query_status-Q request = search (keeps_rules, get_user-Q, status-Q) depth 9
