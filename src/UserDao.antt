-- ===== src/UserDao.antt =====
-- system/user_dao.cpp. Output parameters are results: `none` where the method returns false.
use mathlib.Core.Option
use lite_chat_server.Common.{Bool, List, Option, Str, false, ltb, none, some, ℕ}
use lite_chat_server.Host.{Host}
use lite_chat_server.Database.{
  count_named, friends_of, insert_user_row, set_login_time, set_online, set_online_named,
  set_user_name, set_user_password, user_named, user_with_id,
}
use lite_chat_server.World.{M, pure, ◌>>=◌}
use lite_chat_server.World.Statement.{execute_query, execute_update}

-- `if(res->next())` over a query that may have thrown
abbrev pub first_row {ℓ} : {A : Type ℓ} → Option (Option A) → Option A
first_row none = none
first_row (some row) = row

module _ ⦃host : Host⦄ where
  unfoldable pub insert_user : Str → Str → M Bool
  insert_user name hash = execute_update (λ w. insert_user_row name hash w.db)

  unfoldable pub get_user_by_username : Str → M (Option (ℕ × Str))
  get_user_by_username name = do
    rows ← execute_query (user_named name)
    pure (Option.map (λ row. (row.user_id, row.password_hash)) (first_row rows))

  unfoldable pub update_username : ℕ → Str → M Bool
  update_username id name = execute_update (λ w. set_user_name id name w.db)

  unfoldable pub check_username_exists : Str → M Bool
  check_username_exists name = do
    count ← execute_query (count_named name)
    pure (elim count [ none ↦ false | some n ↦ ltb 0 n ])

  unfoldable pub update_online_status_by_username : Str → Bool → M Bool
  update_online_status_by_username name online =
      execute_update (λ w. set_online_named name online w.db)

  unfoldable pub get_user_id_by_username : Str → M (Option ℕ)
  get_user_id_by_username name = do
    rows ← execute_query (user_named name)
    pure (Option.map (λ row. row.user_id) (first_row rows))

unfoldable pub update_password : ℕ → Str → M Bool
update_password id hash = execute_update (λ w. set_user_password id hash w.db)

unfoldable pub update_online_status : ℕ → Bool → M Bool
update_online_status id online = execute_update (λ w. set_online id online w.db)

unfoldable pub update_last_login_time : ℕ → M Bool
update_last_login_time id = execute_update (λ w. set_login_time id w.now w.db)

unfoldable pub get_user_online_status : ℕ → M (Option Bool)
get_user_online_status id = do
  rows ← execute_query (user_with_id id)
  pure (Option.map (λ row. row.is_online) (first_row rows))

unfoldable pub get_friends_of_user : ℕ → M (Option (List (Str × Bool)))
get_friends_of_user id = execute_query (friends_of id)
