-- ===== src/World/Yields.antt =====
-- What an action returns and leaves behind: one rule for each way to build an action.
use lite_chat_server.Common.{
  Bool, Option, ap, false, if◌then◌else◌, inl, inr, none, refl, some, sym, true, ℕ, ◌∙◌, ◌≡◌, ◌⊎◌,
}
use lite_chat_server.Database.{Database}
use lite_chat_server.World.{M, World, answers, or_else, pure, ◌>>=◌}
use lite_chat_server.World.Keeps.{Keeps}
use lite_chat_server.World.Statement.{commit, execute_query, execute_update}
use lite_chat_server.World.Frame.{On, answers-Keeps, execute_query-Keeps}
use lite_chat_server.Sessions.{SessionManager}

-- From `P` the action `m` returns a value and leads to a state that `R` relates.
pub record Yields {A : Type 0} (P : World → Type 0) (R : A → World → Type 0) (m : M A)
    : Type 0 where
  pub at : (w : World) → P w → R (m w).0 (m w).1

module _ {P : World → Type 0} where
  pub Yields-pure :
      {A : Type 0} {R : A → World → Type 0} (a : A)
      → ((w : World) → P w → R a w)
      → Yields P R (pure a)
  unfolding pure
  Yields-pure a k = record { at = k }

  pub Yields-bind :
      {A B : Type 0} {Q : A → World → Type 0} {R : B → World → Type 0} (m : M A) (f : A → M B)
      → Yields P Q m
      → ((a : A) → Yields (Q a) R (f a))
      → Yields P R (m >>= f)
  unfolding ◌>>=◌
  Yields-bind m f ym yf = record { at = λ w h. (yf (m w).0).at (m w).1 (ym.at w h) }

  -- A first action whose effect does not matter.
  pub Yields-then :
      {A B : Type 0} {R : B → World → Type 0} (m : M A) (f : A → M B)
      → ((a : A) → Yields (λ _. Unit {0}) R (f a))
      → Yields P R (m >>= f)
  unfolding ◌>>=◌
  Yields-then m f yf = record { at = λ w h. (yf (m w).0).at (m w).1 tt }

  pub Yields-if :
      {A : Type 0} {R : A → World → Type 0} (b : Bool) (m n : M A)
      → (b ≡ true → Yields P R m)
      → (b ≡ false → Yields P R n)
      → Yields P R (if b then m else n)
  Yields-if true m n ym yn = ym refl
  Yields-if false m n ym yn = yn refl

  pub Yields-or_else :
      {A B : Type 0} {R : B → World → Type 0} (o : Option A) (n : M B) (f : A → M B)
      → (o ≡ none → Yields P R n)
      → ((a : A) → o ≡ some a → Yields P R (f a))
      → Yields P R (or_else o n f)
  Yields-or_else none n f yn yf = yn refl
  Yields-or_else (some a) n f yn yf = yf a refl

  -- A fact that is no matter of the state.
  pub Yields-given :
      {A K : Type 0} {R : A → World → Type 0} (m : M A)
      → (K → Yields P R m)
      → Yields (λ w. P w × K) R m
  Yields-given m y = record { at = λ w h. (y h.1).at w h.0 }

  pub Yields-map :
      {A : Type 0} {R R' : A → World → Type 0} (m : M A)
      → ((a : A) (w : World) → R a w → R' a w)
      → Yields P R m
      → Yields P R' m
  Yields-map m k y = record { at = λ w h. k (m w).0 (m w).1 (y.at w h) }

  -- What the state was before says all, if the action keeps it.
  pub Yields-kept :
      {A : Type 0} {R : A → World → Type 0} (m : M A)
      → Keeps P m
      → ((a : A) (w : World) → P w → R a w)
      → Yields P R m
  Yields-kept m km k = record { at = λ w h. k (m w).0 (m w).1 (km.at w h) }

  pub Yields-after :
      {A : Type 0} {P' : World → Type 0} {R : A → World → Type 0} (m : M A)
      → ((w : World) → P w → P' w)
      → Yields P' R m
      → Yields P R m
  Yields-after m k y = record { at = λ w h. y.at w (k w h) }

-- The sessions, the tables and the counter are those.
abbrev pub Alike : SessionManager → Database → ℕ → SessionManager → Database → ℕ → Type 0
Alike m db n m' db' n' = (m' ≡ m) × (db' ≡ db) × (n' ≡ n)

abbrev pub Same : SessionManager → Database → ℕ → World → Type 0
Same m db n = On (Alike m db n)

module _ (m : SessionManager) (db : Database) (n : ℕ) where
  -- A query that does not throw reads the tables.
  pub execute_query-Yields :
      {A : Type 0} (query : Database → A)
      → Yields
          (Same m db n)
          (λ r w. Same m db n w × ((r ≡ none) ⊎ (r ≡ some (query db))))
          (execute_query query)
  unfolding execute_query ◌>>=◌
  execute_query-Yields query = record {
    at = λ w h. (
      ((execute_query-Keeps (Alike m db n) query).at w h),
      go (answers w).0 (answers w).1 ((answers-Keeps (Alike m db n)).at w h),
    );
  }
    where
      go :
          (ok : Bool) (w : World)
          → Same m db n w
          → ((if ok then some (query w.db) else none) ≡ none)
            ⊎ ((if ok then some (query w.db) else none) ≡ some (query db))
      go false w h = inl refl
      go true w (_, e, _) = inr (ap (λ d. some (query d)) e)

  -- A statement takes effect, at some time, or changes nothing and says so.
  pub execute_timed-Yields :
      (statement : ℕ → Database → Option Database)
      → Yields
          (Same m db n)
          (λ ok w.
            ((ok ≡ false) × Same m db n w)
            ⊎ ((ok ≡ true)
                × ((db' : Database) × ((now : ℕ) × (statement now db ≡ some db'))
                    × Same m db' n w)))
          (execute_update (λ w. statement w.now w.db))
  unfolding execute_update ◌>>=◌
  execute_timed-Yields statement = record {
    at = λ w h.
        go (answers w).0 (answers w).1 (statement (answers w).1.now (answers w).1.db) refl
          ((answers-Keeps (Alike m db n)).at w h);
  }
    where
      go :
          (ok : Bool) (w : World) (next : Option Database)
          → statement w.now w.db ≡ next
          → Same m db n w
          → let r = (if ok then commit next else pure false) w in
            ((r.0 ≡ false) × Same m db n r.1)
            ⊎ ((r.0 ≡ true)
                × ((db' : Database) × ((now : ℕ) × (statement now db ≡ some db'))
                    × Same m db' n r.1))
      go false w next e h = inl (refl, h)
      go true w none e h = inl (refl, h)
      go true w (some db') e (p, q, r) =
          inr (refl, (db', (w.now, ap (statement w.now) (sym q) ∙ e), (p, refl, r)))

  pub execute_update-Yields :
      (statement : Database → Option Database)
      → Yields
          (Same m db n)
          (λ ok w.
            ((ok ≡ false) × Same m db n w)
            ⊎ ((ok ≡ true) × ((db' : Database) × (statement db ≡ some db') × Same m db' n w)))
          (execute_update (λ w. statement w.db))
  execute_update-Yields statement =
      Yields-map _
        (λ ok w h. elim h [
          | inl no_effect ↦ inl no_effect
          | inr (e, (db', (now, q), same)) ↦ inr (e, (db', q, same))
        ])
        (execute_timed-Yields (λ now. statement))
