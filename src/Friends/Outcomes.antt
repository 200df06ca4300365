-- ===== src/Friends/Outcomes.antt =====
-- What HandleAddFriend and HandleDeleteFriend answer, and what they have done by then.
use lite_chat_server.Common.{
  arith, inl, inr, is_empty, lit, not, refl, some, ℕ, ◌==◌, ◌≡◌, ◌⊎◌, nat_eq, str_eq,
}
use lite_chat_server.Host.{Host}
use lite_chat_server.Database.{
  Database, delete_friend_row, delete_messages_between, insert_friend_row,
}
use lite_chat_server.Sessions.{SessionManager}
use lite_chat_server.Protocol.{Request, Response, reply}
use lite_chat_server.World.{M, World, ◌>>◌}
use lite_chat_server.World.Yields.{
  Alike, Same, Yields, Yields-bind, Yields-given, Yields-if, Yields-kept, Yields-map,
  Yields-or_else, Yields-pure, execute_update-Yields,
}
use lite_chat_server.Users.Parties.{
  Answered, IsIdOf, Settled, get_user_id-Yields, reply-Refused, stored-Yields,
}
use lite_chat_server.Friends.{
  add_between, delete_between, handle_add_friend, handle_delete_friend, target_of, with_parties,
}
use lite_chat_server.FriendDao.{
  check_friendship, delete_friend, delete_messages_between_users, insert_friend,
}
use lite_chat_server.World.Keeps.{keeps_rules}
use lite_chat_server.World.Frame.{execute_query-Keeps}

module _ ⦃host : Host⦄ (m : SessionManager) (db : Database) (n : ℕ) where
  abbrev pub Added : ℕ → ℕ → Database → Type 0
  Added id1 id2 db' = insert_friend_row id1 id2 db ≡ some db'

  -- The row of the friendship goes; the messages go too, or stay.
  abbrev pub Deleted : ℕ → ℕ → Database → Type 0
  Deleted id1 id2 db' =
      (db1 : Database) × (delete_friend_row id1 id2 db ≡ some db1)
      × ((db' ≡ db1) ⊎ (delete_messages_between id1 id2 db1 ≡ some db'))

  parties-Yields :
      (Done : ℕ → ℕ → Database → Type 0) (request : Request) (rest : ℕ → ℕ → M Response)
      → ((i j : ℕ) → Yields (Same m db n) (Answered m db n (Done i j)) (rest i j))
      → Yields
          (Same m db n)
          (Settled m db n Done request.username (target_of request))
          (with_parties request rest)
  unfolding with_parties
  parties-Yields Done request rest k =
      Yields-bind _ _ (get_user_id-Yields m db n request.username) λ user. Yields-given _ λ known.
        Yields-or_else user _ _ (λ _. reply-Refused m db n 2003 _ (omega arith) (λ w h. h))
          λ i e. Yields-bind _ _ (get_user_id-Yields m db n (target_of request)) λ target.
            Yields-given _ λ known'.
              Yields-or_else target _ _ (λ _. reply-Refused m db n 3001 _ (omega arith) (λ w h. h))
                λ j e'.
                  Yields-map (rest i j) (λ r w h. settled i j (known i e) (known' j e') r w h)
                    (k i j)
    where
      settled :
          (i j : ℕ)
          → IsIdOf m db n request.username i
          → IsIdOf m db n (target_of request) j
          → (r : Response) (w : World) → Answered m db n (Done i j) r w
          → Settled m db n Done request.username (target_of request) r w
      settled i j p q r w (inl refused) = inl refused
      settled i j p q r w (inr (ok, done)) = inr (ok, (i, j, p, q, done))

  check-Yields : (i j : ℕ) → Yields (Same m db n) (λ _. Same m db n) (check_friendship i j)
  unfolding check_friendship
  check-Yields i j =
      Yields-kept _ (search (keeps_rules, execute_query-Keeps (Alike m db n))) (λ a w h. h)

  add_between-Yields :
      (i j : ℕ) → Yields (Same m db n) (Answered m db n (Added i j)) (add_between i j)
  unfolding add_between insert_friend
  add_between-Yields i j = Yields-bind _ _ (check-Yields i j) λ already.
      Yields-if already _ _ (λ _. reply-Refused m db n 3002 _ (omega arith) (λ w h. h))
        λ _.
          Yields-bind _ _ (execute_update-Yields m db n (insert_friend_row i j))
            λ stored. stored-Yields m db n (Added i j) stored _

  cleared-Yields :
      (i j : ℕ) (db1 : Database)
      → delete_friend_row i j db ≡ some db1
      → Yields
          (Same m db1 n)
          (Answered m db n (Deleted i j))
          (delete_messages_between_users i j >> reply 0 (lit "删除好友成功"))
  unfolding delete_messages_between_users
  cleared-Yields i j db1 e =
      Yields-bind _ _ (execute_update-Yields m db1 n (delete_messages_between i j)) λ _.
        Yields-pure _ λ w h. elim h [
          | inl (_, same) ↦ inr (refl, (db1, (db1, e, inl refl), same))
          | inr (_, (db2, e', same)) ↦ inr (refl, (db2, (db1, e, inr e'), same))
        ]

  delete_between-Yields :
      (i j : ℕ) → Yields (Same m db n) (Answered m db n (Deleted i j)) (delete_between i j)
  unfolding delete_between delete_friend
  delete_between-Yields i j = Yields-bind _ _ (check-Yields i j) λ friends.
      Yields-if (not friends) _ _ (λ _. reply-Refused m db n 3004 _ (omega arith) (λ w h. h))
        λ _. Yields-bind _ _ (execute_update-Yields m db n (delete_friend_row i j)) λ removed.
          Yields-if (not removed) _ _
            (λ gone. Yields-pure _ λ w h. elim h [
              | inl (_, same) ↦ inl ((λ e. omega (arith, e)), same)
              | inr (e, _) ↦ absurd (ground (arith, gone, e))
            ])
            (λ there. record {
              at = λ w h. elim h [
                | inl (e, _) ↦ absurd (ground (arith, there, e))
                | inr (_, (db1, e, same)) ↦ (cleared-Yields i j db1 e).at w same
              ];
            })

  add_friend-Yields :
      (request : Request)
      → Yields
          (Same m db n)
          (Settled m db n Added request.username (target_of request))
          (handle_add_friend request)
  unfolding handle_add_friend
  add_friend-Yields request =
      Yields-if (is_empty (target_of request)) _ _
        (λ _. reply-Refused m db n 1001 _ (omega arith) (λ w h. h))
        λ _.
          Yields-if (request.username == target_of request) _ _
            (λ _. reply-Refused m db n 3003 _ (omega arith) (λ w h. h))
            λ _. parties-Yields Added request add_between add_between-Yields

  delete_friend-Yields :
      (request : Request)
      → Yields
          (Same m db n)
          (Settled m db n Deleted request.username (target_of request))
          (handle_delete_friend request)
  unfolding handle_delete_friend
  delete_friend-Yields request =
      Yields-if (is_empty (target_of request)) _ _
        (λ _. reply-Refused m db n 1001 _ (omega arith) (λ w h. h))
        λ _. parties-Yields Deleted request delete_between delete_between-Yields

-- Whatever the database answers: a friend request is refused with a code other than 0 and has changed
-- neither the tables nor the sessions, or it has the code 0, and the tables are the old ones with the
-- friendship from the id of the user to the id of the target, an empty target being the user.
pub handle_add_friend-outcome :
    ⦃host : Host⦄ (request : Request) (w : World)
    → Settled w.sessions w.db w.current_connections
        (Added w.sessions w.db w.current_connections)
        request.username
        (target_of request)
        (handle_add_friend request w).0
        (handle_add_friend request w).1
handle_add_friend-outcome request w =
    (add_friend-Yields w.sessions w.db w.current_connections request).at w (refl, refl, refl)

-- Whatever the database answers: the removal of a friend is refused with a code other than 0 and has
-- changed neither the tables nor the sessions, or it has the code 0, the row of the friendship from
-- the user to the target is gone, and the messages between both, in either direction, are gone too or
-- left as they are.
pub handle_delete_friend-outcome :
    ⦃host : Host⦄ (request : Request) (w : World)
    → Settled w.sessions w.db w.current_connections
        (Deleted w.sessions w.db w.current_connections)
        request.username
        (target_of request)
        (handle_delete_friend request w).0
        (handle_delete_friend request w).1
handle_delete_friend-outcome request w =
    (delete_friend-Yields w.sessions w.db w.current_connections request).at w (refl, refl, refl)
