-- ===== src/DbManager/Sharing.antt =====
-- Who holds which connection.
use lite_chat_server.Common.{
  Bool, List, Option, [], ap, arith, count, count-snoc, false, if◌then◌else◌, length, length-append,
  ltb, none, refl, some, subst, suc, true, zero, ℕ, ◌+◌, ◌<◌, ◌∷◌, ◌≡◌,
}
use lite_chat_server.DbManager.{
  Attempt, DbManager, create_each, fill_pool, get_connection, init_connection_pool, no_pool,
  push_new, reconnect, release_connection, try_each, validate_connection, without,
}

-- Every connection that was made is in the pool or handed out, once, and no other one is.
pub record IsShared (m : DbManager) : Type 0 where
  pub once :
      (c : ℕ) → count c m.connection_pool + count c m.borrowed ≡ (if ltb c m.created then 1 else 0)
  pub all : length m.connection_pool + length m.borrowed ≡ m.created

pub no_pool-IsShared : IsShared no_pool
no_pool-IsShared = record { once = λ c. ground arith; all = omega arith }

pub count-without :
    (c conn : ℕ) (xs : List ℕ)
    → 0 < count conn xs
    → count c (without conn xs) + count c (conn ∷ []) ≡ count c xs
count-without c conn [] some_one = absurd (omega (arith, some_one))
count-without c conn (x ∷ xs) some_one = ground (arith, count-without c conn xs)

length-without :
    (conn : ℕ) (xs : List ℕ) → 0 < count conn xs → suc (length (without conn xs)) ≡ length xs
length-without conn [] some_one = absurd (omega (arith, some_one))
length-without conn (x ∷ xs) some_one = ground (arith, length-without conn xs)

module _ (m : DbManager) (s : IsShared m) where
  get_connection-IsShared :
      (conn : ℕ) (m' : DbManager)
      → get_connection m ≡ some (conn, m')
      → IsShared m' × (0 < count conn m'.borrowed)
  unfolding get_connection
  get_connection-IsShared conn m' e = go m.connection_pool refl e
    where
      go :
          (pool : List ℕ)
          → m.connection_pool ≡ pool
          → elim pool as (λ _. Option (ℕ × DbManager)) [
            | [] ↦ none
            | c ∷ rest ↦ some (c, record m { connection_pool = rest; borrowed = c ∷ m.borrowed })
          ]
            ≡ some (conn, m')
          → IsShared m' × (0 < count conn m'.borrowed)
      go [] k e = absurd (cc e)
      go (c ∷ rest) k e =
          let lent : ℕ × DbManager =
            (c, record m { connection_pool = rest; borrowed = c ∷ m.borrowed }) in
          let p : lent ≡ (conn, m') = cc e in
          subst (λ (r : ℕ × DbManager). IsShared r.1 × (0 < count r.0 r.1.borrowed)) p
            (
              record {
                once = λ x. omega (arith, s.once x, ap (count x) k);
                all = omega (arith, s.all, ap length k);
              },
              ground arith,
            )

  release_connection-IsShared :
      (conn : ℕ) → 0 < count conn m.borrowed → IsShared (release_connection conn m)
  unfolding release_connection
  release_connection-IsShared conn held = record {
    once = λ c. omega (
      arith,
      s.once c,
      count-snoc c conn m.connection_pool,
      count-without c conn m.borrowed held,
    );
    all = omega (
      arith,
      s.all,
      length-append m.connection_pool (conn ∷ []),
      length-without conn m.borrowed held,
    );
  }

  pub push_new-IsShared : IsShared (push_new m)
  push_new-IsShared = record {
    once = λ c. ground (arith, s.once c, count-snoc c m.created m.connection_pool);
    all = omega (arith, s.all, length-append m.connection_pool (m.created ∷ []));
  }

  pub resize-IsShared : (size : ℕ) → IsShared (record m { pool_size = size })
  resize-IsShared size = record { once = s.once; all = s.all }

create_each-IsShared :
    (i : ℕ) (outcomes : List Bool) (m : DbManager)
    → IsShared m
    → IsShared (create_each i outcomes m).1
unfolding create_each
create_each-IsShared zero outcomes m s = s
create_each-IsShared (suc i) [] m s = create_each-IsShared i [] (push_new m) (push_new-IsShared m s)
create_each-IsShared (suc i) (false ∷ outcomes) m s = s
create_each-IsShared (suc i) (true ∷ outcomes) m s =
    create_each-IsShared i outcomes (push_new m) (push_new-IsShared m s)

fill_pool-IsShared :
    (size : ℕ) (driver : Bool) (outcomes : List Bool) (m : DbManager)
    → IsShared m
    → IsShared (fill_pool size driver outcomes m).1
unfolding fill_pool
fill_pool-IsShared size true outcomes m s =
    create_each-IsShared size outcomes (record m { pool_size = size }) (resize-IsShared m s size)
fill_pool-IsShared size false outcomes m s = resize-IsShared m s size

validate_connection-IsShared :
    (answers : Bool) (m : DbManager) (r : Bool × DbManager)
    → IsShared m
    → validate_connection answers m ≡ some r
    → IsShared r.1
unfolding validate_connection
validate_connection-IsShared answers m r s e = go (get_connection m) refl e
  where
    go :
        (o : Option (ℕ × DbManager))
        → get_connection m ≡ o
        → elim o as (λ _. Option (Bool × DbManager)) [
          | none ↦ none
          | some borrowing ↦ some (answers, release_connection borrowing.0 borrowing.1)
        ]
          ≡ some r
        → IsShared r.1
    go none k e = absurd (cc e)
    go (some (conn, m')) k e =
        let (s', held) = get_connection-IsShared m s conn m' k in
        let p : (answers, release_connection conn m') ≡ r = cc e in
        subst (λ (x : Bool × DbManager). IsShared x.1) p
          (release_connection-IsShared m' s' conn held)

pub init_connection_pool-IsShared :
    (size : ℕ) (driver : Bool) (outcomes : List Bool) (answers : Bool) (m : DbManager)
    (r : Bool × DbManager)
    → IsShared m
    → init_connection_pool size driver outcomes answers m ≡ some r
    → IsShared r.1
unfolding init_connection_pool
init_connection_pool-IsShared size driver outcomes answers m r s e =
    go (fill_pool size driver outcomes m) (fill_pool-IsShared size driver outcomes m s) e
  where
    go :
        (filled : Bool × DbManager)
        → IsShared filled.1
        → (if filled.0 then validate_connection answers filled.1 else some (false, filled.1))
          ≡ some r
        → IsShared r.1
    go (true, m') s' e = validate_connection-IsShared answers m' r s' e
    go (false, m') s' e =
        let left : Bool × DbManager = (false, m') in
        let p : left ≡ r = cc e in subst (λ (x : Bool × DbManager). IsShared x.1) p s'

try_each-IsShared :
    (attempts : List Attempt) (m : DbManager) (r : Bool × DbManager)
    → IsShared m
    → try_each attempts m ≡ some r
    → IsShared r.1
unfolding try_each
try_each-IsShared [] m r s e =
    let given_up : Bool × DbManager = (false, m) in
    let p : given_up ≡ r = cc e in subst (λ (x : Bool × DbManager). IsShared x.1) p s
try_each-IsShared (a ∷ attempts) m r s e =
    go (init_connection_pool m.pool_size a.driver a.outcomes a.answers m)
      (λ x k. init_connection_pool-IsShared m.pool_size a.driver a.outcomes a.answers m x s k)
      (λ m' s' k. try_each-IsShared attempts m' r s' k) e
  where
    go :
        (o : Option (Bool × DbManager))
        → ((x : Bool × DbManager) → o ≡ some x → IsShared x.1)
        → ((m' : DbManager) → IsShared m' → try_each attempts m' ≡ some r → IsShared r.1)
        → elim o as (λ _. Option (Bool × DbManager)) [
          | none ↦ none
          | some (true, m') ↦ some (true, m')
          | some (false, m') ↦ try_each attempts m'
        ]
          ≡ some r
        → IsShared r.1
    go none one again e = absurd (cc e)
    go (some (true, m')) one again e =
        let done : Bool × DbManager = (true, m') in
        let p : done ≡ r = cc e in
        subst (λ (x : Bool × DbManager). IsShared x.1) p (one (true, m') refl)
    go (some (false, m')) one again e = again m' (one (false, m') refl) e

-- What the threads do with the pool: a connection is given back by who holds it.
pub data DbStep (m : DbManager) : DbManager → Type 0 where
  borrows : (conn : ℕ) {m' : DbManager} → get_connection m ≡ some (conn, m') → DbStep m m'
  returns : (conn : ℕ) → 0 < count conn m.borrowed → DbStep m (release_connection conn m)
  initialises :
      (size : ℕ) (driver : Bool) (outcomes : List Bool) (answers : Bool) {ok : Bool}
      {m' : DbManager}
      → init_connection_pool size driver outcomes answers m ≡ some (ok, m')
      → DbStep m m'
  reconnects :
      (first second third : Attempt) {ok : Bool} {m' : DbManager}
      → reconnect first second third m ≡ some (ok, m')
      → DbStep m m'

pub data DbReach (m : DbManager) : DbManager → Type 0 where
  stays : DbReach m m
  moves : {v u : DbManager} → DbReach m v → DbStep v u → DbReach m u

DbStep-IsShared : {m u : DbManager} → DbStep m u → IsShared m → IsShared u
unfolding reconnect
DbStep-IsShared {m} (borrows conn {m'} e) s = (get_connection-IsShared m s conn m' e).0
DbStep-IsShared {m} (returns conn held) s = release_connection-IsShared m s conn held
DbStep-IsShared {m} (initialises size driver outcomes answers e) s =
    init_connection_pool-IsShared size driver outcomes answers m _ s e
DbStep-IsShared {m} (reconnects first second third e) s = try_each-IsShared _ m _ s e

pub DbReach-IsShared : {m u : DbManager} → DbReach m u → IsShared m → IsShared u
DbReach-IsShared stays s = s
DbReach-IsShared (moves r t) s = DbStep-IsShared t (DbReach-IsShared r s)

-- In every state that the pool of connections reaches, when a connection is given back only by who
-- holds it, and also across reconnections: each connection that was made is either once in the pool or
-- once handed out, so that no two threads hold one, and none is lost.
pub connections-IsShared : (m : DbManager) → DbReach no_pool m → IsShared m
connections-IsShared m r = DbReach-IsShared r no_pool-IsShared
