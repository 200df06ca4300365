-- ===== src/FriendDao.antt =====
-- system/friend_dao.cpp
use lite_chat_server.Common.{Bool, List, Option, Str, false, ltb, none, some, ℕ}
use lite_chat_server.Database.{
  count_friend_rows, delete_friend_row, delete_messages_between, friends_of, insert_friend_row,
}
use lite_chat_server.World.{M, pure, ◌>>=◌}
use lite_chat_server.World.Statement.{execute_query, execute_update}

unfoldable pub insert_friend : ℕ → ℕ → M Bool
insert_friend id1 id2 = execute_update (λ w. insert_friend_row id1 id2 w.db)

unfoldable pub delete_friend : ℕ → ℕ → M Bool
delete_friend id1 id2 = execute_update (λ w. delete_friend_row id1 id2 w.db)

unfoldable pub delete_messages_between_users : ℕ → ℕ → M Bool
delete_messages_between_users id1 id2 = execute_update (λ w. delete_messages_between id1 id2 w.db)

unfoldable pub check_friendship : ℕ → ℕ → M Bool
check_friendship id1 id2 = do
  count ← execute_query (count_friend_rows id1 id2)
  pure (elim count [ none ↦ false | some n ↦ ltb 0 n ])

unfoldable pub get_friend_list : ℕ → M (Option (List (Str × Bool)))
get_friend_list id = execute_query (friends_of id)
