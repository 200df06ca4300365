-- ===== src/Users/Access.antt =====
-- HandleLogin and HandleUpdateUser against whoever does not know the password.
use mathlib.Core.Option
use lite_chat_server.Common.{
  Option, Str, ap, arith, inl, inr, none, not, refl, some, str_eq, sym, true, ℕ, ◌<◌, ◌==◌, ◌∙◌,
  ◌≡◌, ◌≢◌, ◌⊎◌, nat_eq,
}
use lite_chat_server.Host.{Host}
use lite_chat_server.Database.{Database, UserRow, user_named}
use lite_chat_server.Sessions.{SessionManager}
use lite_chat_server.UserDao.{first_row, get_user_by_username}
use lite_chat_server.World.Yields.{
  Same, Yields, Yields-bind, Yields-if, Yields-or_else, Yields-pure, Yields-then,
  execute_query-Yields,
}
use lite_chat_server.Users.{
  complete_login, handle_login, handle_update_user, md5_encrypt, validate_username,
}
use lite_chat_server.Protocol.{Request, Response, reply}
use lite_chat_server.World.{World}

module _ ⦃host : Host⦄ (m : SessionManager) (db : Database) (n : ℕ) where
  -- The password has the digest that is stored for the user.
  abbrev pub Knows : Str → Str → Type 0
  Knows username password =
      (row : UserRow) × (user_named username db ≡ some row)
      × (md5_encrypt password ≡ row.password_hash)

  abbrev Found : Str → Option (ℕ × Str) → Type 0
  Found username r =
      (r ≡ none)
      ⊎ ((row : UserRow) × (user_named username db ≡ some row)
          × (r ≡ some (row.user_id, row.password_hash)))

  get_user-Yields :
      (username : Str)
      → Yields
          (Same m db n)
          (λ r w. Same m db n w × Found username r)
          (get_user_by_username username)
  unfolding get_user_by_username
  get_user-Yields username =
      Yields-bind _ _ (execute_query-Yields m db n (user_named username))
        λ rows. Yields-pure _ λ w h. (h.0, found rows h.1)
    where
      found :
          (rows : Option (Option UserRow))
          → (rows ≡ none) ⊎ (rows ≡ some (user_named username db))
          → Found username
              (Option.map (λ (row : UserRow). (row.user_id, row.password_hash)) (first_row rows))
      found none h = inl refl
      found (some none) h = inl refl
      found (some (some row)) (inl e) = absurd (cc e)
      found (some (some row)) (inr e) = inr (row, sym (cc e), refl)

  known :
      (username password : Str) (r : Option (ℕ × Str)) (user : ℕ × Str)
      → r ≡ some user
      → (md5_encrypt password == user.1) ≡ true
      → Found username r
      → Knows username password
  known username password r user e same (inl nobody) = absurd (cc (sym nobody ∙ e))
  known username password r user e same (inr (row, found, q)) =
      let p : user ≡ (row.user_id, row.password_hash) = cc (sym e ∙ q) in
      (
        row,
        found,
        (str_eq.beq_iff (md5_encrypt password) user.1).0 same ∙ ap (λ (u : ℕ × Str). u.1) p,
      )

  -- Refused, with nothing done, or with the code 0 for somebody who knows the password.
  abbrev pub LoggedIn : Request → Response → World → Type 0
  LoggedIn request r w =
      ((r.code ≢ 0) × Same m db n w)
      ⊎ ((r.code ≡ 0)
          × (validate_username request.username ≡ true)
          × Knows request.username request.password)

  complete_login-Yields :
      (id : ℕ) (request : Request) {P : World → Type 0}
      → Yields P (λ r w. r.code ≡ 0) (complete_login id request)
  unfolding complete_login
  complete_login-Yields id request = Yields-then _ _ λ status. Yields-then _ _ λ _.
      Yields-then _ _ λ _.
        Yields-then _ _ λ _. Yields-then _ _ λ _. Yields-then _ _ λ _. Yields-pure _ (λ w h. refl)

  refused :
      (request : Request) (code : ℕ) (msg : Str) {P : World → Type 0}
      → 0 < code
      → ((w : World) → P w → Same m db n w)
      → Yields P (LoggedIn request) (reply code msg)
  refused request code msg bad k = Yields-pure _ (λ w h. inl ((λ e. omega (arith, e, bad)), k w h))

  handle_login-Yields :
      (request : Request) → Yields (Same m db n) (LoggedIn request) (handle_login request)
  unfolding handle_login
  handle_login-Yields request =
      Yields-if (not (validate_username request.username)) _ _
        (λ _. refused request 2001 _ (omega arith) (λ w h. h))
        λ named. Yields-bind _ _ (get_user-Yields request.username) λ found.
          Yields-or_else found _ _ (λ _. refused request 2003 _ (omega arith) (λ w h. h.0))
            λ user e.
              Yields-if (md5_encrypt request.password == user.1) _ _
                (λ same. record {
                  at = λ w h. inr (
                    (complete_login-Yields user.0 request {P = λ _. Unit {0}}).at w tt,
                    ground arith,
                    known request.username request.password found user e same h.1,
                  );
                })
                (λ _. refused request 2004 _ (omega arith) (λ w h. h.0))

  handle_update_user-Yields :
      (request : Request)
      → Yields
          (Same m db n)
          (λ r w. ((r.code ≢ 0) × Same m db n w) ⊎ Knows request.username request.verify_password)
          (handle_update_user request)
  unfolding handle_update_user
  handle_update_user-Yields request = Yields-bind _ _ (get_user-Yields request.username) λ found.
      Yields-or_else found _ _ (λ _. Yields-pure _ (λ w h. inl ((λ e. omega (arith, e)), h.0)))
        λ user e.
          Yields-if (md5_encrypt request.verify_password == user.1) _ _
            (λ same. record {
              at =
                  λ w h. inr (known request.username request.verify_password found user e same h.1);
            })
            (λ _. Yields-pure _ (λ w h. inl ((λ e. omega (arith, e)), h.0)))

-- Whatever the database and the network answer: a login is refused with a code other than 0 and has
-- changed neither the tables nor the sessions, or it has the code 0, the name is valid, and the
-- digest of the password is the one that the tables hold for the user.
pub handle_login-outcome :
    ⦃host : Host⦄ (request : Request) (w : World)
    → LoggedIn w.sessions w.db w.current_connections request
        (handle_login request w).0
        (handle_login request w).1
handle_login-outcome request w =
    (handle_login-Yields w.sessions w.db w.current_connections request).at w (refl, refl, refl)

-- Whatever the database answers: unless the digest of the password sent for verification is the one
-- that the tables hold for the user, an update of the user is refused with a code other than 0, and
-- changes neither the tables nor the sessions.
pub handle_update_user-outcome :
    ⦃host : Host⦄ (request : Request) (w : World)
    → (((handle_update_user request w).0.code ≢ 0)
        × Same w.sessions w.db w.current_connections (handle_update_user request w).1)
      ⊎ Knows w.sessions w.db w.current_connections request.username request.verify_password
handle_update_user-outcome request w =
    (handle_update_user-Yields w.sessions w.db w.current_connections request).at w
      (refl, refl, refl)
