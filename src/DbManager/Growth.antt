-- ===== src/DbManager/Growth.antt =====
-- How many connections InitConnectionPool and Reconnect make.
use lite_chat_server.Common.{
  Bool, List, Option, [], ap, arith, count, count-snoc, length, length-append, false, false≢true,
  if◌then◌else◌, none, refl, nat_eq, str_eq, some, subst, suc, sym, true, zero, ℕ, ◌+◌, ◌∙◌, ◌∷◌,
  ◌≡◌, ◌≤◌,
}
use lite_chat_server.DbManager.{
  Attempt, DbManager, create_each, fill_pool, get_connection, init_connection_pool, push_new,
  reconnect, release_connection, try_each, validate_connection, without,
}

-- From `m` to the result no connection leaves the pool and none is lent out; the size is `size`; at
-- most `size` connections are new, and if all went well, that many; those and no others have come into
-- the pool.
pub record Grown (size : ℕ) (m : DbManager) (r : Bool × DbManager) : Type 0 where
  pub more : m.created ≤ r.1.created
  pub bounded : r.1.created ≤ m.created + size
  pub sized : r.1.pool_size ≡ size
  pub lent : r.1.borrowed ≡ m.borrowed
  pub filled : r.0 ≡ true → m.created + size ≤ r.1.created
  pub kept : (c : ℕ) → count c m.connection_pool ≤ count c r.1.connection_pool
  pub balance : length r.1.connection_pool + m.created ≡ length m.connection_pool + r.1.created

create_each-size :
    (i : ℕ) (outcomes : List Bool) (m : DbManager)
    → (create_each i outcomes m).1.pool_size ≡ m.pool_size
unfolding create_each
create_each-size zero outcomes m = refl
create_each-size (suc i) [] m = create_each-size i [] (push_new m)
create_each-size (suc i) (false ∷ outcomes) m = refl
create_each-size (suc i) (true ∷ outcomes) m = create_each-size i outcomes (push_new m)

create_each-lent :
    (i : ℕ) (outcomes : List Bool) (m : DbManager)
    → (create_each i outcomes m).1.borrowed ≡ m.borrowed
unfolding create_each
create_each-lent zero outcomes m = refl
create_each-lent (suc i) [] m = create_each-lent i [] (push_new m)
create_each-lent (suc i) (false ∷ outcomes) m = refl
create_each-lent (suc i) (true ∷ outcomes) m = create_each-lent i outcomes (push_new m)

create_each-more :
    (i : ℕ) (outcomes : List Bool) (m : DbManager)
    → m.created ≤ (create_each i outcomes m).1.created
unfolding create_each
create_each-more zero outcomes m = omega arith
create_each-more (suc i) [] m = omega (arith, create_each-more i [] (push_new m))
create_each-more (suc i) (false ∷ outcomes) m = omega arith
create_each-more (suc i) (true ∷ outcomes) m =
    omega (arith, create_each-more i outcomes (push_new m))

create_each-bounded :
    (i : ℕ) (outcomes : List Bool) (m : DbManager)
    → (create_each i outcomes m).1.created ≤ m.created + i
unfolding create_each
create_each-bounded zero outcomes m = omega arith
create_each-bounded (suc i) [] m = omega (arith, create_each-bounded i [] (push_new m))
create_each-bounded (suc i) (false ∷ outcomes) m = omega arith
create_each-bounded (suc i) (true ∷ outcomes) m =
    omega (arith, create_each-bounded i outcomes (push_new m))

create_each-filled :
    (i : ℕ) (outcomes : List Bool) (m : DbManager)
    → (create_each i outcomes m).0 ≡ true
    → m.created + i ≤ (create_each i outcomes m).1.created
unfolding create_each
create_each-filled zero outcomes m e = omega arith
create_each-filled (suc i) [] m e = omega (arith, create_each-filled i [] (push_new m) e)
create_each-filled (suc i) (false ∷ outcomes) m e = absurd (false≢true e)
create_each-filled (suc i) (true ∷ outcomes) m e =
    omega (arith, create_each-filled i outcomes (push_new m) e)

create_each-kept :
    (c i : ℕ) (outcomes : List Bool) (m : DbManager)
    → count c m.connection_pool ≤ count c (create_each i outcomes m).1.connection_pool
unfolding create_each
create_each-kept c zero outcomes m = omega arith
create_each-kept c (suc i) [] m =
    omega (arith, create_each-kept c i [] (push_new m), count-snoc c m.created m.connection_pool)
create_each-kept c (suc i) (false ∷ outcomes) m = omega arith
create_each-kept c (suc i) (true ∷ outcomes) m =
    omega
      (arith, create_each-kept c i outcomes (push_new m), count-snoc c m.created m.connection_pool)

create_each-balance :
    (i : ℕ) (outcomes : List Bool) (m : DbManager)
    → length (create_each i outcomes m).1.connection_pool + m.created
      ≡ length m.connection_pool + (create_each i outcomes m).1.created
unfolding create_each
create_each-balance zero outcomes m = refl
create_each-balance (suc i) [] m =
    omega (
      arith,
      create_each-balance i [] (push_new m),
      length-append m.connection_pool (m.created ∷ []),
    )
create_each-balance (suc i) (false ∷ outcomes) m = refl
create_each-balance (suc i) (true ∷ outcomes) m = omega (
  arith,
  create_each-balance i outcomes (push_new m),
  length-append m.connection_pool (m.created ∷ []),
)

fill_pool-Grown :
    (size : ℕ) (driver : Bool) (outcomes : List Bool) (m : DbManager)
    → Grown size m (fill_pool size driver outcomes m)
unfolding fill_pool
fill_pool-Grown size true outcomes m = record {
  more = create_each-more size outcomes (record m { pool_size = size });
  bounded = create_each-bounded size outcomes (record m { pool_size = size });
  sized = create_each-size size outcomes (record m { pool_size = size });
  lent = create_each-lent size outcomes (record m { pool_size = size });
  filled = create_each-filled size outcomes (record m { pool_size = size });
  kept = λ c. create_each-kept c size outcomes (record m { pool_size = size });
  balance = create_each-balance size outcomes (record m { pool_size = size });
}
fill_pool-Grown size false outcomes m = record {
  more = omega arith;
  bounded = omega arith;
  sized = refl;
  lent = refl;
  filled = λ e. absurd (false≢true e);
  kept = λ c. omega arith;
  balance = refl;
}

without-head : (c : ℕ) (xs : List ℕ) → without c (c ∷ xs) ≡ xs
without-head c xs = ground arith

-- Who borrows a connection and gives it back makes none, and takes none out of the pool.
validate_connection-same :
    (answers : Bool) (m : DbManager) (r : Bool × DbManager)
    → validate_connection answers m ≡ some r
    → (r.1.created ≡ m.created)
      × (r.1.pool_size ≡ m.pool_size)
      × (r.1.borrowed ≡ m.borrowed)
      × ((x : ℕ) → count x r.1.connection_pool ≡ count x m.connection_pool)
      × (length r.1.connection_pool ≡ length m.connection_pool)
unfolding validate_connection get_connection release_connection
validate_connection-same answers m r e = go m.connection_pool refl e
  where
    go :
        (pool : List ℕ)
        → m.connection_pool ≡ pool
        → elim (elim pool as (λ _. Option (ℕ × DbManager)) [
          | [] ↦ none
          | c ∷ rest ↦ some (c, record m { connection_pool = rest; borrowed = c ∷ m.borrowed })
        ])
            as (λ _. Option (Bool × DbManager)) [
              | none ↦ none
              | some borrowing ↦ some (answers, release_connection borrowing.0 borrowing.1)
            ]
          ≡ some r
        → (r.1.created ≡ m.created)
          × (r.1.pool_size ≡ m.pool_size)
          × (r.1.borrowed ≡ m.borrowed)
          × ((x : ℕ) → count x r.1.connection_pool ≡ count x m.connection_pool)
          × (length r.1.connection_pool ≡ length m.connection_pool)
    go [] k e = absurd (cc e)
    go (c ∷ rest) k e =
        let back : Bool × DbManager = (
          answers,
          release_connection c (record m { connection_pool = rest; borrowed = c ∷ m.borrowed }),
        ) in
        let p : r ≡ back = sym (cc e) in
        (
          ap (λ (x : Bool × DbManager). x.1.created) p,
          ap (λ (x : Bool × DbManager). x.1.pool_size) p,
          ap (λ (x : Bool × DbManager). x.1.borrowed) p ∙ without-head c m.borrowed,
          λ x. omega (
            arith,
            ap (λ (y : Bool × DbManager). count x y.1.connection_pool) p,
            count-snoc x c rest,
            ap (count x) k,
          ),
          omega (
            arith,
            ap (λ (y : Bool × DbManager). length y.1.connection_pool) p,
            length-append rest (c ∷ []),
            ap length k,
          ),
        )

pub init_connection_pool-Grown :
    (size : ℕ) (driver : Bool) (outcomes : List Bool) (answers : Bool) (m : DbManager)
    (r : Bool × DbManager)
    → init_connection_pool size driver outcomes answers m ≡ some r
    → Grown size m r
unfolding init_connection_pool
init_connection_pool-Grown size driver outcomes answers m r e =
    go (fill_pool size driver outcomes m) (fill_pool-Grown size driver outcomes m) e
  where
    go :
        (filled : Bool × DbManager)
        → Grown size m filled
        → (if filled.0 then validate_connection answers filled.1 else some (false, filled.1))
          ≡ some r
        → Grown size m r
    go (true, m') g e =
        let (p, q, l, same, size_same) = validate_connection-same answers m' r e in
        record {
          more = omega (arith, g.more, p);
          bounded = omega (arith, g.bounded, p);
          sized = q ∙ g.sized;
          lent = l ∙ g.lent;
          filled = λ _. omega (arith, g.filled refl, p);
          kept = λ c. omega (arith, g.kept c, same c);
          balance = omega (arith, g.balance, size_same, p);
        }
    go (false, m') g e =
        let failed : Bool × DbManager = (false, m') in
        let p : failed ≡ r = cc e in subst (Grown size m) p g

-- What a reconnection that has succeeded leaves behind: more connections, in the pool as well, and
-- none of the pool is gone.
pub record Regrown (m m' : DbManager) : Type 0 where
  pub new_ones : m.created + m.pool_size ≤ m'.created
  pub old_ones : (c : ℕ) → count c m.connection_pool ≤ count c m'.connection_pool
  pub idle_ones : length m.connection_pool + m.pool_size ≤ length m'.connection_pool

try_each-Regrown :
    (attempts : List Attempt) (m m' : DbManager)
    → try_each attempts m ≡ some (true, m')
    → Regrown m m'
unfolding try_each
try_each-Regrown [] m m' e =
    let given_up : Bool × DbManager = (false, m) in
    let p : given_up ≡ (true, m') = cc e in
    absurd (false≢true (ap (λ (x : Bool × DbManager). x.0) p))
try_each-Regrown (a ∷ attempts) m m' e =
    go (init_connection_pool m.pool_size a.driver a.outcomes a.answers m)
      (λ r k. init_connection_pool-Grown m.pool_size a.driver a.outcomes a.answers m r k)
      (λ v k. try_each-Regrown attempts v m' k) e
  where
    go :
        (o : Option (Bool × DbManager))
        → ((r : Bool × DbManager) → o ≡ some r → Grown m.pool_size m r)
        → ((v : DbManager) → try_each attempts v ≡ some (true, m') → Regrown v m')
        → elim o as (λ _. Option (Bool × DbManager)) [
          | none ↦ none
          | some (true, v) ↦ some (true, v)
          | some (false, v) ↦ try_each attempts v
        ]
          ≡ some (true, m')
        → Regrown m m'
    go none one again e = absurd (cc e)
    go (some (true, v)) one again e =
        let done : Bool × DbManager = (true, v) in
        let p : done ≡ (true, m') = cc e in
        let g = one done refl in
        subst (λ (x : Bool × DbManager). Regrown m x.1) p
          (record {
            new_ones = g.filled refl;
            old_ones = g.kept;
            idle_ones = omega (arith, g.filled refl, g.balance);
          })
    go (some (false, v)) one again e =
        let g = one (false, v) refl in
        let later = again v e in
        record {
          new_ones = omega (arith, later.new_ones, g.more, g.sized);
          old_ones = λ c. omega (arith, g.kept c, later.old_ones c);
          idle_ones = omega (arith, later.idle_ones, g.balance, g.more, g.sized);
        }

-- A reconnection that succeeds has made at least as many new connections as the pool is large, on top
-- of those that were there: every connection that was in the pool is in it still, as often, and the
-- pool is longer by its configured size at least.
pub reconnect-grows :
    (first second third : Attempt) (m m' : DbManager)
    → reconnect first second third m ≡ some (true, m')
    → (m.created + m.pool_size ≤ m'.created)
      × ((c : ℕ) → count c m.connection_pool ≤ count c m'.connection_pool)
      × (length m.connection_pool + m.pool_size ≤ length m'.connection_pool)
unfolding reconnect
reconnect-grows first second third m m' e =
    let r = try_each-Regrown (first ∷ second ∷ third ∷ []) m m' e in
    (r.new_ones, r.old_ones, r.idle_ones)
