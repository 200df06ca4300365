-- ===== src/Users/Exclusive.antt =====
-- HandleLogin against a second session of the same user, when the database answers.
use mathlib.Core.Option
use lite_chat_server.Common.{
  Bool, Bool-cases, Option, Option-cases, Str, [], ap, false, if◌then◌else◌, inl, inr, lit, lookup,
  none, refl, some, subst, sym, true, ℕ, ◌==◌, ◌∷◌, ◌≡◌, ◌≢◌, nat_eq, str_eq,
}
use lite_chat_server.Host.{Host}
use lite_chat_server.Sessions.{SessionManager}
use lite_chat_server.Sessions.Linked.{IsLinked}
use lite_chat_server.World.{M, World, answers, or_else, pure, when, ◌>>=◌, ◌>>◌}
use lite_chat_server.World.Keeps.{Leads, Leads-after, Leads-before, Leads-bind, keeps_rules}
use lite_chat_server.World.Frame.{room}
use lite_chat_server.Users.{
  attach_session, complete_login, force_offline, handle_login, md5_encrypt,
  notify_friends_status_change, validate_username,
}
use lite_chat_server.Users.Frame.{login_time-Q, notify-Q, set_status-Q}
use lite_chat_server.Users.Soundness.{IsClient, valid-ne-nil}
use lite_chat_server.Protocol.{Request, Response, online, reply}
use lite_chat_server.UserDao.{
  first_row, get_user_by_username, get_user_online_status, update_last_login_time,
  update_online_status,
}
use lite_chat_server.Database.{Database, UserRow, user_named, user_with_id}
use lite_chat_server.World.Statement.{execute_query}
use lite_chat_server.Users.Kick.{IsJoined, IsJoinedBut, absent-Joined, attach-Joined, force-Joined}

module _ ⦃host : Host⦄ (request : Request) where
  abbrev Joined : World → Type 0
  Joined w = IsJoined request.username request.client_socket w.sessions

  abbrev JoinedBut : World → Type 0
  JoinedBut w = IsJoinedBut request.username request.client_socket w.sessions

  -- The part of a login behind the kick.
  abbrev enter : ℕ → M Response
  enter id = do
    update_online_status id true
    update_last_login_time id
    attach_session request.client_socket request.username
    notify_friends_status_change request.username online
    reply 0 (lit "登录成功")

  enter-Joined : request.username ≢ [] → (id : ℕ) → Leads JoinedBut Joined (enter id)
  enter-Joined n id = Leads-before _ _ (set_status-Q (room B) id true) λ _.
      Leads-before _ _ (login_time-Q (room B) id) λ _.
        Leads-after _ _ (attach-Joined request.username request.client_socket n)
          λ _. search (keeps_rules, notify-Q (room R))
    where
      B : SessionManager → ℕ → Type 0
      B = λ m _. IsJoinedBut request.username request.client_socket m

      R : SessionManager → ℕ → Type 0
      R = λ m _. IsJoined request.username request.client_socket m

  -- A database that answers: a query changes nothing.
  execute_query-calm :
      {A : Type 0} (query : Database → A) (w : World)
      → w.db_results ≡ []
      → execute_query query w ≡ (some (query w.db), w)
  unfolding execute_query answers ◌>>=◌
  execute_query-calm {A} query w calm =
      ap
        (λ (r : Bool × World).
          let result : Option A × World = (if r.0 then some (query r.1.db) else none, r.1) in
          result)
        answered
    where
      answered : answers w ≡ (true, w)
      answered =
          ap
            (λ r. elim r as (λ _. Bool × World) [
              | [] ↦ (true, w)
              | r ∷ rest ↦ (r, record w { db_results = rest })
            ])
            calm

  abbrev pub online_flag : ℕ → Database → Option Bool
  online_flag id db = Option.map (λ (row : UserRow). row.is_online) (user_with_id id db)

  status-calm :
      (id : ℕ) (w : World)
      → w.db_results ≡ []
      → get_user_online_status id w ≡ (online_flag id w.db, w)
  unfolding get_user_online_status ◌>>=◌
  status-calm id w calm =
      ap
        (λ (r : Option (Option UserRow) × World).
          (Option.map (λ (row : UserRow). row.is_online) (first_row r.0), r.1))
        (execute_query-calm (user_with_id id) w calm)

  abbrev pub credentials : Database → Option (ℕ × Str)
  credentials db =
      Option.map (λ (row : UserRow). (row.user_id, row.password_hash))
        (user_named request.username db)

  user-calm :
      (w : World)
      → w.db_results ≡ []
      → get_user_by_username request.username w ≡ (credentials w.db, w)
  unfolding get_user_by_username ◌>>=◌
  user-calm w calm =
      ap
        (λ (r : Option (Option UserRow) × World).
          (Option.map (λ (row : UserRow). (row.user_id, row.password_hash)) (first_row r.0), r.1))
        (execute_query-calm (user_named request.username) w calm)

  -- A login that the database answers, after the flag has been read.
  abbrev after_status : ℕ → Option Bool → M Response
  after_status id status =
      when (elim status [ none ↦ false | some is_online ↦ is_online ])
        (force_offline id request.username)
      >> enter id

  -- The flag is right: so a name that is bound has it set.
  abbrev pub FlagIsRight : Option Bool → World → Type 0
  FlagIsRight status w =
      (t : ℕ) → lookup request.username w.sessions.username_to_socket ≡ some t → status ≡ some true

  unbound :
      (status : Option Bool) (w : World)
      → FlagIsRight status w
      → status ≢ some true
      → lookup request.username w.sessions.username_to_socket ≡ none
  unbound status w flag off =
      elim (Option-cases (lookup request.username w.sessions.username_to_socket)) [
        | inl absent ↦ absent
        | inr (t, bound) ↦ absurd (off (flag t bound))
      ]

  after_status-Joined :
      (id : ℕ) (status : Option Bool) (w : World)
      → request.username ≢ []
      → FlagIsRight status w
      → Joined w
      → Joined (after_status id status w).1
  unfolding ◌>>=◌
  after_status-Joined id (some true) w n flag j =
      (Leads-bind _ (λ _. enter id) (force-Joined request.username request.client_socket id)
          (λ _. enter-Joined n id)).to
        w j
  after_status-Joined id (some false) w n flag j = (enter-Joined n id).to w (
      absent-Joined request.username request.client_socket w.sessions j
        (unbound (some false) w flag (λ e. cc)))
  after_status-Joined id none w n flag j = (enter-Joined n id).to w (
      absent-Joined request.username request.client_socket w.sessions j
        (unbound none w flag (λ e. cc)))

  complete_login-Joined :
      (id : ℕ) (w : World)
      → request.username ≢ []
      → w.db_results ≡ []
      → FlagIsRight (online_flag id w.db) w
      → Joined w
      → Joined (complete_login id request w).1
  unfolding complete_login ◌>>=◌
  complete_login-Joined id w n calm flag j =
      subst (λ (r : Option Bool × World). Joined (after_status id r.0 r.1).1)
        (sym (status-calm id w calm)) (after_status-Joined id (online_flag id w.db) w n flag j)

  -- The part of a login behind the query for the user.
  abbrev check_password : Option (ℕ × Str) → M Response
  check_password found = or_else found (reply 2003 (lit "用户不存在")) (λ (user_id, password_hash).
      if md5_encrypt request.password == password_hash
      then complete_login user_id request
      else reply 2004 (lit "密码错误"))

  check_password-IsLinked :
      (found : Option (ℕ × Str)) (w : World)
      → request.username ≢ []
      → w.db_results ≡ []
      → ((id : ℕ) (hash : Str) → found ≡ some (id, hash) → FlagIsRight (online_flag id w.db) w)
      → Joined w
      → IsLinked (check_password found w).1.sessions
  unfolding pure
  check_password-IsLinked none w n calm flag j = j.linked
  check_password-IsLinked (some (id, hash)) w n calm flag j =
      go (md5_encrypt request.password == hash)
    where
      go :
          (same : Bool)
          → IsLinked
              ((if same then complete_login id request else reply 2004 (lit "密码错误")) w).1.sessions
      go true = (complete_login-Joined id w n calm (flag id hash refl) j).linked
      go false = j.linked

-- A login leaves names and sessions linked both ways, every name being that of the session it leads
-- to and every session with a name being found by it: if they were, if the database answers, if the
-- client's session has no name or the name of the request, and if the flag `is_online` is set in the
-- tables for the user of the request when the name is bound to a session.
pub handle_login-IsLinked :
    ⦃host : Host⦄ (request : Request) (w : World)
    → w.db_results ≡ []
    → IsLinked w.sessions
    → IsClient request.username request.client_socket w.sessions
    → ((id : ℕ) (hash : Str)
        → credentials request w.db ≡ some (id, hash)
        → FlagIsRight request (online_flag request id w.db) w)
    → IsLinked (handle_login request w).1.sessions
unfolding handle_login ◌>>=◌
handle_login-IsLinked request w calm linked client flag =
    elim (Bool-cases (validate_username request.username)) [
      | inl valid ↦
          rw (handle_login, valid)
            (subst
              (λ (r : Option (ℕ × Str) × World).
                IsLinked (check_password request r.0 r.1).1.sessions)
              (sym (user-calm request w calm))
              (check_password-IsLinked request (credentials request w.db) w
                (valid-ne-nil request.username valid) calm flag
                (record { linked = linked; client = client })))
      | inr bad ↦ rw (handle_login, bad) linked
    ]
