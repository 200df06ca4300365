-- ===== src/Database.antt =====
-- The tables of sql/init.sql, and what the statements of the data access classes do to them. The
-- columns create_time, update_time and friendship_id, which the program never reads, are left out.
-- A statement that breaks a constraint of the tables has no result, and changes nothing.
pub mod Consistency
pub mod Sorting
use lite_chat_server.Common.{
  Bool, List, Option, Str, [], any, false, find, flat_map, if◌then◌else◌, leb, length, ltb, map,
  none, not, select, some, suc, true, update_where, ℕ, ◌&&◌, ◌++◌, ◌+◌, ◌==◌, ◌||◌, ◌∷◌, nat_eq,
  str_eq,
}
use lite_chat_server.Host.{Host}

pub record UserRow : Type 0 where
  pub user_id : ℕ
  pub username : Str
  pub password_hash : Str
  pub is_online : Bool
  pub last_login_time : Option ℕ

pub record FriendRow : Type 0 where
  pub user_id1 : ℕ
  pub user_id2 : ℕ

pub record MessageRow : Type 0 where
  pub message_id : ℕ
  pub sender_id : ℕ
  pub receiver_id : ℕ
  pub content : Str
  pub send_time : ℕ
  pub is_read : Bool

pub record Database : Type 0 where
  pub users : List UserRow
  pub friends : List FriendRow
  pub messages : List MessageRow
  -- the AUTO_INCREMENT counters of `users` and `messages`
  pub next_user : ℕ
  pub next_message : ℕ

abbrev pub empty_database : Database
empty_database = record { users = []; friends = []; messages = []; next_user = 1; next_message = 1 }

-- the largest INT
abbrev pub int_max : ℕ
int_max = 2147483647

-- The length of a VARCHAR counts characters: the bytes that do not continue one.
unfoldable pub char_count : Str → ℕ
char_count [] = 0
char_count (c ∷ s) = (if ltb c 0x80 || leb 0xC0 c then 1 else 0) + char_count s

abbrev pub has_id : ℕ → UserRow → Bool
has_id id row = row.user_id == id

abbrev pub same_pair : ℕ → ℕ → FriendRow → Bool
same_pair id1 id2 row = row.user_id1 == id1 && row.user_id2 == id2

abbrev pub from_to : ℕ → ℕ → MessageRow → Bool
from_to sender receiver row = row.sender_id == sender && row.receiver_id == receiver

module _ ⦃host : Host⦄ where
  abbrev pub has_name : Str → UserRow → Bool
  has_name name row = host.collate row.username name

  -- SELECT ... FROM users WHERE username = ?
  unfoldable pub user_named : Str → Database → Option UserRow
  user_named name db = find (has_name name) db.users

  -- SELECT COUNT(*) FROM users WHERE username = ?
  unfoldable pub count_named : Str → Database → ℕ
  count_named name db = length (select (has_name name) db.users)

  -- INSERT INTO users (username, password_hash) VALUES (?, ?)
  unfoldable pub insert_user_row : Str → Str → Database → Option Database
  insert_user_row name hash db =
      if any (has_name name) db.users
        || ltb 20 (char_count name)
        || ltb 32 (char_count hash)
        || ltb int_max db.next_user
      then none
      else some (record db {
        users =
            db.users
            ++ record {
              user_id = db.next_user;
              username = name;
              password_hash = hash;
              is_online = false;
              last_login_time = none;
            }
              ∷ [];
        next_user = suc db.next_user;
      })

  -- UPDATE users SET username = ? WHERE user_id = ?
  unfoldable pub set_user_name : ℕ → Str → Database → Option Database
  set_user_name id name db =
      if any (has_id id) db.users
        && (any (λ row. has_name name row && not (has_id id row)) db.users
            || ltb 20 (char_count name))
      then none
      else some (record db {
        users = update_where (has_id id) (λ row. record row { username = name }) db.users;
      })

  -- UPDATE users SET is_online = ? WHERE username = ?
  unfoldable pub set_online_named : Str → Bool → Database → Option Database
  set_online_named name online db = some (record db {
    users = update_where (has_name name) (λ row. record row { is_online = online }) db.users;
  })

-- UPDATE users SET password_hash = ? WHERE user_id = ?
unfoldable pub set_user_password : ℕ → Str → Database → Option Database
set_user_password id hash db =
    if any (has_id id) db.users && ltb 32 (char_count hash)
    then none
    else some (record db {
      users = update_where (has_id id) (λ row. record row { password_hash = hash }) db.users;
    })

-- UPDATE users SET is_online = ? WHERE user_id = ?
unfoldable pub set_online : ℕ → Bool → Database → Option Database
set_online id online db = some (record db {
  users = update_where (has_id id) (λ row. record row { is_online = online }) db.users;
})

-- UPDATE users SET last_login_time = NOW() WHERE user_id = ?
unfoldable pub set_login_time : ℕ → ℕ → Database → Option Database
set_login_time id now db = some (record db {
  users = update_where (has_id id) (λ row. record row { last_login_time = some now }) db.users;
})

-- SELECT is_online FROM users WHERE user_id = ?
unfoldable pub user_with_id : ℕ → Database → Option UserRow
user_with_id id db = find (has_id id) db.users

-- SELECT u.username, u.is_online FROM users u INNER JOIN friends f
-- ON (f.user_id1 = u.user_id OR f.user_id2 = u.user_id)
-- WHERE (f.user_id1 = ? OR f.user_id2 = ?) AND u.user_id != ?
abbrev pub joins : ℕ → UserRow → FriendRow → Bool
joins id u f =
    (f.user_id1 == u.user_id || f.user_id2 == u.user_id)
    && ((f.user_id1 == id || f.user_id2 == id) && not (u.user_id == id))

unfoldable pub friends_of : ℕ → Database → List (Str × Bool)
friends_of id db =
    flat_map (λ u. map (λ f. (u.username, u.is_online)) (select (joins id u) db.friends)) db.users

-- INSERT INTO friends (user_id1, user_id2) VALUES (?, ?)
unfoldable pub insert_friend_row : ℕ → ℕ → Database → Option Database
insert_friend_row id1 id2 db =
    if any (same_pair id1 id2) db.friends
      || not (any (has_id id1) db.users)
      || not (any (has_id id2) db.users)
    then none
    else some (record db { friends = db.friends ++ record { user_id1 = id1; user_id2 = id2 } ∷ [] })

-- DELETE FROM friends WHERE user_id1 = ? AND user_id2 = ?
unfoldable pub delete_friend_row : ℕ → ℕ → Database → Option Database
delete_friend_row id1 id2 db =
    some (record db { friends = select (λ row. not (same_pair id1 id2 row)) db.friends })

-- SELECT COUNT(*) FROM friends WHERE user_id1 = ? AND user_id2 = ?
unfoldable pub count_friend_rows : ℕ → ℕ → Database → ℕ
count_friend_rows id1 id2 db = length (select (same_pair id1 id2) db.friends)

-- DELETE FROM messages WHERE (sender_id = ? AND receiver_id = ?) OR (sender_id = ? AND receiver_id = ?)
unfoldable pub delete_messages_between : ℕ → ℕ → Database → Option Database
delete_messages_between id1 id2 db = some (record db {
  messages = select (λ row. not (from_to id1 id2 row || from_to id2 id1 row)) db.messages;
})

-- the bytes that a TEXT column holds at most
abbrev pub text_max : ℕ
text_max = 65535

-- INSERT INTO messages (sender_id, receiver_id, content) VALUES (?, ?, ?)
unfoldable pub insert_message_row : ℕ → ℕ → Str → ℕ → Database → Option Database
insert_message_row sender receiver content now db =
    if not (any (has_id sender) db.users)
      || not (any (has_id receiver) db.users)
      || ltb text_max (length content)
      || ltb int_max db.next_message
    then none
    else some (record db {
      messages =
          db.messages
          ++ record {
            message_id = db.next_message;
            sender_id = sender;
            receiver_id = receiver;
            content = content;
            send_time = now;
            is_read = false;
          }
            ∷ [];
      next_message = suc db.next_message;
    })

-- UPDATE messages SET is_read = 1 WHERE sender_id = ? AND receiver_id = ? AND is_read = 0
unfoldable pub mark_read : ℕ → ℕ → Database → Option Database
mark_read sender receiver db = some (record db {
  messages =
      update_where (λ row. from_to sender receiver row && not row.is_read)
        (λ row. record row { is_read = true }) db.messages;
})

-- ORDER BY send_time ASC: a stable sort
unfoldable pub insert_by_time : MessageRow → List MessageRow → List MessageRow
insert_by_time row [] = row ∷ []
insert_by_time row (x ∷ rows) =
    if leb row.send_time x.send_time then row ∷ x ∷ rows else x ∷ insert_by_time row rows

unfoldable pub by_time : List MessageRow → List MessageRow
unfolding insert_by_time
by_time [] = []
by_time (row ∷ rows) = insert_by_time row (by_time rows)

-- SELECT ... WHERE receiver_id = ? AND is_read = 0 ORDER BY send_time ASC
unfoldable pub unread_rows : ℕ → Database → List MessageRow
unread_rows id db = by_time (select (λ row. row.receiver_id == id && not row.is_read) db.messages)

-- SELECT ... WHERE (sender_id = ? AND receiver_id = ?) OR (sender_id = ? AND receiver_id = ?)
-- ORDER BY send_time ASC
unfoldable pub history_rows : ℕ → ℕ → Database → List MessageRow
history_rows id1 id2 db =
    by_time (select (λ row. from_to id1 id2 row || from_to id2 id1 row) db.messages)

module _ ⦃host : Host⦄ where
  -- The statements that write to the tables.
  pub data IsStatement : (Database → Option Database) → Type 0 where
    inserts_user : (name hash : Str) → IsStatement (insert_user_row name hash)
    sets_user_name : (id : ℕ) (name : Str) → IsStatement (set_user_name id name)
    sets_user_password : (id : ℕ) (hash : Str) → IsStatement (set_user_password id hash)
    sets_online : (id : ℕ) (online : Bool) → IsStatement (set_online id online)
    sets_online_named : (name : Str) (online : Bool) → IsStatement (set_online_named name online)
    sets_login_time : (id now : ℕ) → IsStatement (set_login_time id now)
    inserts_friend : (id1 id2 : ℕ) → IsStatement (insert_friend_row id1 id2)
    deletes_friend : (id1 id2 : ℕ) → IsStatement (delete_friend_row id1 id2)
    deletes_messages : (id1 id2 : ℕ) → IsStatement (delete_messages_between id1 id2)
    inserts_message :
        (sender receiver : ℕ) (content : Str) (now : ℕ)
        → IsStatement (insert_message_row sender receiver content now)
    marks_read : (sender receiver : ℕ) → IsStatement (mark_read sender receiver)
