-- ===== src/Database/Consistency.antt =====
-- The constraints of sql/init.sql as an invariant of the tables.
use lite_chat_server.Common.{
  All, All-map, All-snoc, All-update, All-zip, Bool, Bool-cases, List, Pairwise, Pairwise-snoc, Str,
  [], any, any-none, ap, arith, false, false≢true, if◌then◌else◌, inl, inr, ltb, not, refl, subst,
  suc, sym, true, update_where, update_where-none, ℕ, ◌&&◌, ◌++◌, ◌<◌, ◌||◌, ◌∙◌, ◌∷◌, ◌≡◌, ◌≢◌,
}
use lite_chat_server.Host.{Host}
use lite_chat_server.Database.{
  Database, FriendRow, UserRow, char_count, has_id, has_name, same_pair,
}

abbrev pub OtherId : UserRow → UserRow → Type 0
OtherId a b = a.user_id ≢ b.user_id

abbrev pub OtherPair : FriendRow → FriendRow → Type 0
OtherPair f g = same_pair g.user_id1 g.user_id2 f ≡ false

-- There is a user with this id.
abbrev pub IsUser : List UserRow → ℕ → Type 0
IsUser users id = any (has_id id) users ≡ true

abbrev pub BetweenUsers : List UserRow → ℕ → ℕ → Type 0
BetweenUsers users id1 id2 = IsUser users id1 × IsUser users id2

module _ ⦃host : Host⦄ where
  abbrev pub OtherName : UserRow → UserRow → Type 0
  OtherName a b = has_name b.username a ≡ false

  -- PRIMARY KEY and UNIQUE KEY of `users`, UNIQUE KEY of `friends`, the FOREIGN KEYs of both other
  -- tables, and AUTO_INCREMENT.
  pub record IsConsistent (db : Database) : Type 0 where
    pub ids : Pairwise OtherId db.users
    pub fresh : All (λ u. u.user_id < db.next_user) db.users
    pub names : Pairwise OtherName db.users
    pub pairs : Pairwise OtherPair db.friends
    pub friendships : All (λ f. BetweenUsers db.users f.user_id1 f.user_id2) db.friends
    pub letters : All (λ r. BetweenUsers db.users r.sender_id r.receiver_id) db.messages

-- A change of other columns keeps the ids.
any-update :
    (id : ℕ) (p : UserRow → Bool) (f : UserRow → UserRow) (users : List UserRow)
    → ((u : UserRow) → (f u).user_id ≡ u.user_id)
    → any (has_id id) (update_where p f users) ≡ any (has_id id) users
any-update id p f [] k = refl
any-update id p f (u ∷ users) k = ground (arith, k u, any-update id p f users k)

any-snoc :
    (id : ℕ) (users : List UserRow) (u : UserRow)
    → any (has_id id) users ≡ true
    → any (has_id id) (users ++ u ∷ []) ≡ true
any-snoc id [] u e = absurd (false≢true e)
any-snoc id (x ∷ users) u e = ground (arith, any-snoc id users u)

-- A change of columns other than the id and the name.
module _ ⦃host : Host⦄ (p : UserRow → Bool) (f : UserRow → UserRow)
    (id_same : (u : UserRow) → (f u).user_id ≡ u.user_id) where
  row_id : (u : UserRow) → (if p u then f u else u).user_id ≡ u.user_id
  row_id u = ground (arith, id_same u)

  ids-update :
      (users : List UserRow) → Pairwise OtherId users → Pairwise OtherId (update_where p f users)
  ids-update [] w = tt
  ids-update (u ∷ users) (a, w) = (
    All-update (OtherId u) (OtherId (if p u then f u else u)) p f users
        (λ x n. λ e. n (sym (row_id u) ∙ e ∙ row_id x)) a,
    ids-update users w,
  )

  between-update :
      (users : List UserRow) (i j : ℕ)
      → BetweenUsers users i j
      → BetweenUsers (update_where p f users) i j
  between-update users i j (a, b) =
      (any-update i p f users id_same ∙ a, any-update j p f users id_same ∙ b)

  -- The users get other names that are distinct too.
  pub users-IsConsistent :
      (db : Database)
      → Pairwise OtherName (update_where p f db.users)
      → IsConsistent db
      → IsConsistent (record db { users = update_where p f db.users })
  users-IsConsistent db names c = record {
    ids = ids-update db.users c.ids;
    fresh =
        All-update _ _ p f db.users (λ u lt. subst (λ i. i < db.next_user) (sym (row_id u)) lt)
          c.fresh;
    names = names;
    pairs = c.pairs;
    friendships =
        All-map _ _ db.friends (λ r. between-update db.users r.user_id1 r.user_id2) c.friendships;
    letters =
        All-map _ _ db.messages (λ r. between-update db.users r.sender_id r.receiver_id) c.letters;
  }

  module _ (name_same : (u : UserRow) → (f u).username ≡ u.username) where
    row_name : (u : UserRow) → (if p u then f u else u).username ≡ u.username
    row_name u = ground (arith, name_same u)

    names-update :
        (users : List UserRow)
        → Pairwise OtherName users
        → Pairwise OtherName (update_where p f users)
    names-update [] w = tt
    names-update (u ∷ users) (a, w) = (
      All-update (OtherName u) (OtherName (if p u then f u else u)) p f users
          (λ x n.
            ap (λ name. host.collate name (if p x then f x else x).username) (row_name u)
            ∙ ap (λ name. host.collate u.username name) (row_name x)
            ∙ n)
          a,
      names-update users w,
    )

    pub columns-IsConsistent :
        (db : Database)
        → IsConsistent db
        → IsConsistent (record db { users = update_where p f db.users })
    columns-IsConsistent db c = users-IsConsistent db (names-update db.users c.names) c

module _ ⦃host : Host⦄ where
  differ-sym : (a b : Str) → host.collate a b ≡ false → host.collate b a ≡ false
  differ-sym a b e = ground (arith, host.collate_sym b a)

  -- A new name that no other user has, for the one user of an id.
  module _ (id : ℕ) (name : Str) where
    abbrev pub rename : UserRow → UserRow
    rename u = record u { username = name }

    abbrev Apart : UserRow → Type 0
    Apart u = (has_name name u && not (has_id id u)) ≡ false

    renamed-Apart :
        (u x : UserRow)
        → Apart u
        → Apart x × (OtherId u x × OtherName u x)
        → OtherName (if has_id id u then rename u else u) (if has_id id x then rename x else x)
    renamed-Apart u x g (h, (n, o)) = ground (arith, differ-sym x.username name)

    rename-names :
        (users : List UserRow)
        → All Apart users
        → Pairwise OtherId users
        → Pairwise OtherName users
        → Pairwise OtherName (update_where (has_id id) rename users)
    rename-names [] g i w = tt
    rename-names (u ∷ users) (g, gs) (i, is) (n, ns) = (
      All-update _ _ (has_id id) rename users (λ x k. renamed-Apart u x g k)
          (All-zip _ _ users gs (All-zip _ _ users i n)),
      rename-names users gs is ns,
    )

  -- The guard of the UPDATE: if a user has the id, then no other has the name.
  pub renamed_names :
      (id : ℕ) (name : Str) (db : Database)
      → IsConsistent db
      → (any (has_id id) db.users
          && (any (λ row. has_name name row && not (has_id id row)) db.users
              || ltb 20 (char_count name)))
        ≡ false
      → Pairwise OtherName (update_where (has_id id) (rename id name) db.users)
  renamed_names id name db c ok = elim (Bool-cases (any (has_id id) db.users)) [
    | inl known ↦ rename-names id name db.users (any-none _ db.users (ground arith)) c.ids c.names
    | inr unknown ↦
        subst (Pairwise OtherName)
          (sym (update_where-none (has_id id) (rename id name) db.users unknown)) c.names
  ]

  pub new_user-IsConsistent :
      (db : Database) (u : UserRow)
      → u.user_id ≡ db.next_user
      → any (has_name u.username) db.users ≡ false
      → IsConsistent db
      → IsConsistent (record db { users = db.users ++ u ∷ []; next_user = suc db.next_user })
  new_user-IsConsistent db u i free c = record {
    ids =
        Pairwise-snoc OtherId db.users u c.ids
          (All-map _ _ db.users (λ x lt e. omega (arith, lt, e, i)) c.fresh);
    fresh =
        All-snoc _ db.users u (All-map _ _ db.users (λ x lt. omega (arith, lt)) c.fresh)
          (omega (arith, i));
    names =
        Pairwise-snoc OtherName db.users u c.names (any-none (has_name u.username) db.users free);
    pairs = c.pairs;
    friendships = All-map _ _ db.friends (λ r. more r.user_id1 r.user_id2) c.friendships;
    letters = All-map _ _ db.messages (λ r. more r.sender_id r.receiver_id) c.letters;
  }
    where
      more : (i j : ℕ) → BetweenUsers db.users i j → BetweenUsers (db.users ++ u ∷ []) i j
      more i j (a, b) = (any-snoc i db.users u a, any-snoc j db.users u b)
