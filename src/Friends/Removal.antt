-- ===== src/Friends/Removal.antt =====
-- HandleDeleteFriend of system/friend_manager.cpp when the first four of its statements are answered.
use lite_chat_server.Common.{
  Bool, List, false, if◌then◌else◌, is_empty, lit, ltb, not, refl, select, some, true, ℕ, ◌<◌, ◌||◌,
  ◌∷◌, ◌≡◌, arith, nat_eq, str_eq,
}
use lite_chat_server.Host.{Host}
use lite_chat_server.Database.{
  Database, UserRow, count_friend_rows, delete_friend_row, delete_messages_between, from_to,
  same_pair, user_named,
}
use lite_chat_server.Protocol.{Request, Response, response}
use lite_chat_server.World.{World, answers, gets, pure, update, ◌>>=◌}
use lite_chat_server.World.Statement.{commit, execute_query, execute_update}
use lite_chat_server.UserDao.{get_user_id_by_username}
use lite_chat_server.FriendDao.{check_friendship, delete_friend, delete_messages_between_users}
use lite_chat_server.Friends.{delete_between, handle_delete_friend, target_of, with_parties}

-- The tables without the friendship from one id to the other.
abbrev pub without_friendship : ℕ → ℕ → Database → Database
without_friendship i j db = record db {
  friends = select (λ row. not (same_pair i j row)) db.friends;
}

-- The tables without the messages between two ids, in either direction.
abbrev pub without_messages : ℕ → ℕ → Database → Database
without_messages i j db = record db {
  messages = select (λ row. not (from_to i j row || from_to j i row)) db.messages;
}

-- The first four statements are answered, and the fifth as `ok` says.
abbrev pub four_answers : Bool → List Bool → World → World
four_answers ok later w = record w { db_results = true ∷ true ∷ true ∷ true ∷ ok ∷ later }

-- The answer to a friend who is deleted.
abbrev pub deleted : Response
deleted = response 0 (lit "删除好友成功")

module _ ⦃host : Host⦄ where
  -- What a removal leaves: the friendship is gone, and the messages if the last statement is answered.
  abbrev pub removed : ℕ → ℕ → Bool → List Bool → World → World
  removed i j ok later w = record w {
    db_results = later;
    db =
        if ok
        then without_messages i j (without_friendship i j w.db)
        else without_friendship i j w.db;
  }

  delete_between-removes :
      (i j : ℕ) (ok : Bool) (later : List Bool) (w : World)
      → 0 < count_friend_rows i j w.db
      → delete_between i j (record w { db_results = true ∷ true ∷ ok ∷ later })
        ≡ (deleted, removed i j ok later w)
  unfolding delete_between check_friendship delete_friend delete_messages_between_users
      execute_query execute_update commit answers delete_friend_row delete_messages_between ◌>>=◌
      pure gets update
  delete_between-removes i j true later w friends =
      let there : ltb 0 (count_friend_rows i j w.db) ≡ true = ground (arith, friends) in
      rw (there) refl
  delete_between-removes i j false later w friends =
      let there : ltb 0 (count_friend_rows i j w.db) ≡ true = ground (arith, friends) in
      rw (there) refl

  -- If the user and the target are known, the friendship from the user to the target is in the tables,
  -- and the first four statements are answered, HandleDeleteFriend answers with 0 and changes nothing
  -- but this: every row of the friendship in that direction is gone, and so is every message between
  -- both, in either direction, exactly if the fifth statement is answered as well; if it is not, all
  -- messages stay, under the same answer.
  pub handle_delete_friend-removes :
      (request : Request) (a b : UserRow) (ok : Bool) (later : List Bool) (w : World)
      → is_empty (target_of request) ≡ false
      → user_named request.username w.db ≡ some a
      → user_named (target_of request) w.db ≡ some b
      → 0 < count_friend_rows a.user_id b.user_id w.db
      → handle_delete_friend request (four_answers ok later w)
        ≡ (deleted, removed a.user_id b.user_id ok later w)
  unfolding handle_delete_friend with_parties get_user_id_by_username execute_query answers ◌>>=◌
      pure gets
  handle_delete_friend-removes request a b ok later w target from to friends =
      rw (target, from, to) (delete_between-removes a.user_id b.user_id ok later w friends)
