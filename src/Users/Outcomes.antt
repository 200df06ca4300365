-- ===== src/Users/Outcomes.antt =====
-- What HandleRegister and HandleLogin answer, and what they have done by then.
use lite_chat_server.Common.{
  Bool, Str, arith, false, false≢true, if◌then◌else◌, inl, inr, lit, not, refl, some, sym, true, ℕ,
  ◌<◌, ◌≡◌, ◌≢◌, ◌⊎◌,
}
use lite_chat_server.Host.{Host}
use lite_chat_server.Database.{Database, insert_user_row}
use lite_chat_server.Sessions.{SessionManager}
use lite_chat_server.UserDao.{check_username_exists, insert_user}
use lite_chat_server.Protocol.{Request, Response, reply}
use lite_chat_server.World.{World}
use lite_chat_server.World.Yields.{
  Alike, Same, Yields, Yields-bind, Yields-if, Yields-kept, Yields-pure, execute_update-Yields,
}
use lite_chat_server.Users.{handle_register, md5_encrypt, validate_password, validate_username}
use lite_chat_server.World.Keeps.{keeps_rules}
use lite_chat_server.World.Frame.{execute_query-Keeps}

module _ ⦃host : Host⦄ (m : SessionManager) (db : Database) (n : ℕ) where
  -- A registration: refused, with nothing done, or the row of a valid user is there.
  abbrev pub Registered : Request → Response → World → Type 0
  Registered request r w =
      ((r.code ≢ 0) × Same m db n w)
      ⊎ ((r.code ≡ 0)
          × (validate_username request.username ≡ true)
          × (validate_password request.password ≡ true)
          × ((db' : Database) × (insert_user_row request.username (md5_encrypt request.password) db
                ≡ some db')
              × Same m db' n w))

  refused :
      (request : Request) (code : ℕ) (msg : Str)
      → 0 < code
      → Yields (Same m db n) (Registered request) (reply code msg)
  refused request code msg bad = Yields-pure _ (λ w h. inl ((λ e. omega (arith, e, bad)), h))

  handle_register-Yields :
      (request : Request) → Yields (Same m db n) (Registered request) (handle_register request)
  unfolding handle_register insert_user check_username_exists
  handle_register-Yields request =
      Yields-if (not (validate_username request.username)) _ _
        (λ _. refused request 2001 _ (omega arith))
        λ named.
          Yields-if (not (validate_password request.password)) _ _
            (λ _. refused request 2001 _ (omega arith))
            λ keyed.
              Yields-bind _ _
                (Yields-kept _ (search (keeps_rules, execute_query-Keeps (Alike m db n)))
                  (λ a w h. h))
                λ taken.
                  Yields-if taken _ _ (λ _. refused request 2002 _ (omega arith))
                    λ _.
                      Yields-bind _ _
                        (execute_update-Yields m db n
                          (insert_user_row request.username (md5_encrypt request.password)))
                        (stored named keyed)
    where
      stored :
          not (validate_username request.username) ≡ false
          → not (validate_password request.password) ≡ false
          → (ok : Bool)
          → Yields
              (λ w.
                ((ok ≡ false) × Same m db n w)
                ⊎ ((ok ≡ true)
                    × ((db' : Database) × (insert_user_row request.username
                            (md5_encrypt request.password)
                            db
                          ≡ some db')
                        × Same m db' n w)))
              (Registered request)
              (if ok then reply 0 (lit "注册成功") else reply 5001 (lit "数据库操作失败"))
      stored named keyed true = Yields-pure _ λ w h. elim h [
        | inl (e, _) ↦ absurd (false≢true (sym e))
        | inr (_, done) ↦ inr (refl, ground arith, ground arith, done)
      ]
      stored named keyed false = Yields-pure _ λ w h. elim h [
        | inl (_, same) ↦ inl ((λ e. omega (arith, e)), same)
        | inr (e, _) ↦ absurd (false≢true e)
      ]

-- Whatever the database answers: a registration is refused with a code other than 0 and has changed
-- neither the tables nor the sessions, or it has the code 0, the name and the password are valid,
-- and the tables are the old ones with the row of the new user, who has the digest of the password.
pub handle_register-outcome :
    ⦃host : Host⦄ (request : Request) (w : World)
    → Registered w.sessions w.db w.current_connections request
        (handle_register request w).0
        (handle_register request w).1
handle_register-outcome request w =
    (handle_register-Yields w.sessions w.db w.current_connections request).at w (refl, refl, refl)
