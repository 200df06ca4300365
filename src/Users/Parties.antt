-- ===== src/Users/Parties.antt =====
-- How a request between two users ends: refused with nothing done, or done between their ids.
use mathlib.Core.Option
use lite_chat_server.Common.{
  Bool, Option, Str, arith, false, false≢true, if◌then◌else◌, inl, inr, lit, none, refl, some, sym,
  true, ℕ, ◌<◌, ◌≡◌, ◌≢◌, ◌⊎◌,
}
use lite_chat_server.Host.{Host}
use lite_chat_server.Database.{Database, UserRow, user_named}
use lite_chat_server.Sessions.{SessionManager}
use lite_chat_server.UserDao.{first_row, get_user_id_by_username}
use lite_chat_server.Protocol.{Response, reply}
use lite_chat_server.World.{World}
use lite_chat_server.World.Yields.{Same, Yields, Yields-bind, Yields-pure, execute_query-Yields}

module _ ⦃host : Host⦄ (m : SessionManager) (db : Database) (n : ℕ) where
  -- The tables have a user of that name with that id.
  abbrev pub IsIdOf : Str → ℕ → Type 0
  IsIdOf username id = (row : UserRow) × (user_named username db ≡ some row) × (row.user_id ≡ id)

  abbrev pub Refused : Response → World → Type 0
  Refused r w = (r.code ≢ 0) × Same m db n w

  -- `Done` relates the ids to what the tables have become.
  abbrev pub Settled : (ℕ → ℕ → Database → Type 0) → Str → Str → Response → World → Type 0
  Settled Done name target r w =
      Refused r w
      ⊎ ((r.code ≡ 0)
          × ((id1 : ℕ) × (id2 : ℕ) × IsIdOf name id1
              × IsIdOf target id2
              × ((db' : Database) × Done id1 id2 db' × Same m db' n w)))

  abbrev pub FoundId : Str → Option ℕ → Type 0
  FoundId username r = (id : ℕ) → r ≡ some id → IsIdOf username id

  pub get_user_id-Yields :
      (username : Str)
      → Yields
          (Same m db n)
          (λ r w. Same m db n w × FoundId username r)
          (get_user_id_by_username username)
  unfolding get_user_id_by_username
  get_user_id-Yields username =
      Yields-bind _ _ (execute_query-Yields m db n (user_named username))
        λ rows. Yields-pure _ λ w h. (h.0, found rows h.1)
    where
      found :
          (rows : Option (Option UserRow))
          → (rows ≡ none) ⊎ (rows ≡ some (user_named username db))
          → FoundId username (Option.map (λ (row : UserRow). row.user_id) (first_row rows))
      found none h id e = absurd (cc e)
      found (some none) h id e = absurd (cc e)
      found (some (some row)) (inl q) id e = absurd (cc q)
      found (some (some row)) (inr q) id e = (row, sym (cc q), cc e)

  pub reply-Refused :
      {A : Response → World → Type 0} {P : World → Type 0} (code : ℕ) (msg : Str)
      → 0 < code
      → ((w : World) → P w → Same m db n w)
      → Yields P (λ r w. Refused r w ⊎ A r w) (reply code msg)
  reply-Refused code msg bad k = Yields-pure _ (λ w h. inl ((λ e. omega (arith, e, bad)), k w h))

  -- What a statement tells its caller.
  abbrev pub Written : (Database → Type 0) → Bool → World → Type 0
  Written Done ok w =
      ((ok ≡ false) × Same m db n w)
      ⊎ ((ok ≡ true) × ((db' : Database) × Done db' × Same m db' n w))

  -- Refused, or with the code 0 when the tables are as `Done` has it.
  abbrev pub Answered : (Database → Type 0) → Response → World → Type 0
  Answered Done r w = Refused r w ⊎ ((r.code ≡ 0) × ((db' : Database) × Done db' × Same m db' n w))

  pub stored-Yields :
      (Done : Database → Type 0) (ok : Bool) (msg : Str)
      → Yields
          (Written Done ok)
          (Answered Done)
          (if ok then reply 0 msg else reply 5001 (lit "数据库操作失败"))
  stored-Yields Done true msg =
      Yields-pure _ λ w h. elim h [
        | inl (e, _) ↦ absurd (false≢true (sym e))
        | inr (_, done) ↦ inr (refl, done)
      ]
  stored-Yields Done false msg = Yields-pure _ λ w h. elim h [
    | inl (_, same) ↦ inl ((λ e. omega (arith, e)), same)
    | inr (e, _) ↦ absurd (false≢true e)
  ]
