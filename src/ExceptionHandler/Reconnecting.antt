-- ===== src/ExceptionHandler/Reconnecting.antt =====
-- The rounds of HandleDBException against the attempts of Reconnect.
use lite_chat_server.Common.{
  Bool, List, Option, [], ap, arith, count, false, none, refl, some, sym, true, ◌*◌, ◌++◌, ◌+◌, ◌<◌,
  ◌∙◌, ◌∷◌, ◌≡◌, ◌≤◌, ℕ,
}
use lite_chat_server.DbManager.{Attempt, DbManager, init_connection_pool, reconnect, try_each}
use lite_chat_server.DbManager.Returning.{try_each-Tried, try_each-returns}
use lite_chat_server.ExceptionHandler.{Round, handle_db_exception, retry_each}

abbrev pub attempts_of : List Round → List Attempt
attempts_of [] = []
attempts_of (round ∷ rounds) = round.first ∷ round.second ∷ round.third ∷ attempts_of rounds

-- A series of attempts, and another one if it fails.
abbrev pub or_again :
    Option (Bool × DbManager) → (DbManager → Option (Bool × DbManager)) → Option (Bool × DbManager)
or_again none again = none
or_again (some (true, m)) again = some (true, m)
or_again (some (false, m)) again = again m

try_each-append :
    (xs ys : List Attempt) (m : DbManager)
    → try_each (xs ++ ys) m ≡ or_again (try_each xs m) (try_each ys)
unfolding try_each
try_each-append [] ys m = refl
try_each-append (a ∷ xs) ys m =
    go (init_connection_pool m.pool_size a.driver a.outcomes a.answers m)
      (λ v. try_each-append xs ys v)
  where
    go :
        (o : Option (Bool × DbManager))
        → ((v : DbManager) → try_each (xs ++ ys) v ≡ or_again (try_each xs v) (try_each ys))
        → elim o as (λ _. Option (Bool × DbManager)) [
          | none ↦ none
          | some (true, v) ↦ some (true, v)
          | some (false, v) ↦ try_each (xs ++ ys) v
        ]
          ≡ or_again
              (elim o as (λ _. Option (Bool × DbManager)) [
                | none ↦ none
                | some (true, v) ↦ some (true, v)
                | some (false, v) ↦ try_each xs v
              ])
              (try_each ys)
    go none again = refl
    go (some (true, v)) again = refl
    go (some (false, v)) again = again v

retry_each-series :
    (rounds : List Round) (m : DbManager) → retry_each rounds m ≡ try_each (attempts_of rounds) m
unfolding retry_each reconnect
retry_each-series [] m = unfold try_each in refl
retry_each-series (round ∷ rounds) m =
    go (try_each (round.first ∷ round.second ∷ round.third ∷ []) m)
      (λ v. retry_each-series rounds v)
    ∙ sym (try_each-append (round.first ∷ round.second ∷ round.third ∷ []) (attempts_of rounds) m)
  where
    go :
        (o : Option (Bool × DbManager))
        → ((v : DbManager) → retry_each rounds v ≡ try_each (attempts_of rounds) v)
        → elim o as (λ _. Option (Bool × DbManager)) [
          | none ↦ none
          | some (true, v) ↦ some (true, v)
          | some (false, v) ↦ retry_each rounds v
        ]
          ≡ or_again o (try_each (attempts_of rounds))
    go none again = refl
    go (some (true, v)) again = refl
    go (some (false, v)) again = again v

-- The same result with the manager behind a pointer.
abbrev pub behind_pointer : Option (Bool × DbManager) → Option (Bool × Option DbManager)
behind_pointer none = none
behind_pointer (some (reconnected, m)) = some (reconnected, some m)

-- The three calls of Reconnect, each with three attempts, are one series of nine attempts that ends
-- with the first success, and otherwise with the ninth failure.
pub handle_db_exception-series :
    (one two three : Round) (m : DbManager)
    → handle_db_exception one two three (some m)
      ≡ behind_pointer (try_each (attempts_of (one ∷ two ∷ three ∷ [])) m)
unfolding handle_db_exception
handle_db_exception-series one two three m =
    ap behind_pointer (retry_each-series (one ∷ two ∷ three ∷ []) m)

-- With a positive size, HandleDBException returns; every connection that was in the pool is in it
-- still, as often, the configured size stays, and at most nine times as many connections as that size
-- are new.
pub handle_db_exception-bounded :
    (one two three : Round) (m : DbManager)
    → 0 < m.pool_size
    → (reconnected : Bool) × (m' : DbManager) × (handle_db_exception one two three (some m)
        ≡ some (reconnected, some m'))
      × (m'.pool_size ≡ m.pool_size)
      × ((c : ℕ) → count c m.connection_pool ≤ count c m'.connection_pool)
      × (m.created ≤ m'.created)
      × (m'.created ≤ m.created + 9 * m.pool_size)
handle_db_exception-bounded one two three m positive =
    let ((reconnected, m'), e) =
      try_each-returns (attempts_of (one ∷ two ∷ three ∷ [])) m positive in
    let t = try_each-Tried (attempts_of (one ∷ two ∷ three ∷ [])) m (reconnected, m') e in
    (
      reconnected,
      m',
      handle_db_exception-series one two three m ∙ ap behind_pointer e,
      t.same_size,
      t.kept,
      t.none_lost,
      omega (arith, t.bounded),
    )
