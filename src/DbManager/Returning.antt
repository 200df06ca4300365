-- ===== src/DbManager/Returning.antt =====
-- Whether a reconnection comes to an end, and how many connections it makes.
use lite_chat_server.Common.{
  Bool, List, Option, [], ap, arith, count, false, if◌then◌else◌, length, length-append, none, refl,
  some, subst, suc, sym, true, zero, ℕ, ◌+◌, ◌<◌, ◌∙◌, ◌∷◌, ◌≡◌, ◌≤◌,
}
use lite_chat_server.DbManager.{
  Attempt, DbManager, create_each, fill_pool, get_connection, init_connection_pool, push_new,
  reconnect, release_connection, try_each, validate_connection,
}
use lite_chat_server.DbManager.Growth.{Grown, init_connection_pool-Grown}

-- Connections that all went well are in the pool.
create_each-fills :
    (i : ℕ) (outcomes : List Bool) (m : DbManager)
    → (create_each i outcomes m).0 ≡ true
    → length m.connection_pool + i ≤ length (create_each i outcomes m).1.connection_pool
unfolding create_each
create_each-fills zero outcomes m e = omega arith
create_each-fills (suc i) [] m e =
    omega (
      arith,
      create_each-fills i [] (push_new m) e,
      length-append m.connection_pool (m.created ∷ []),
    )
create_each-fills (suc i) (false ∷ outcomes) m e = absurd (cc e)
create_each-fills (suc i) (true ∷ outcomes) m e = omega (
  arith,
  create_each-fills i outcomes (push_new m) e,
  length-append m.connection_pool (m.created ∷ []),
)

fill_pool-fills :
    (size : ℕ) (driver : Bool) (outcomes : List Bool) (m : DbManager)
    → (fill_pool size driver outcomes m).0 ≡ true
    → size ≤ length (fill_pool size driver outcomes m).1.connection_pool
unfolding fill_pool
fill_pool-fills size true outcomes m e =
    omega (arith, create_each-fills size outcomes (record m { pool_size = size }) e)
fill_pool-fills size false outcomes m e = absurd (cc e)

pub validate_connection-returns :
    (answers : Bool) (m : DbManager)
    → 0 < length m.connection_pool
    → (m' : DbManager) × (validate_connection answers m ≡ some (answers, m'))
unfolding validate_connection get_connection
validate_connection-returns answers m some_there = go m.connection_pool some_there
  where
    go :
        (pool : List ℕ)
        → 0 < length pool
        → (m' : DbManager) × (elim (elim pool as (λ _. Option (ℕ × DbManager)) [
          | [] ↦ none
          | c ∷ rest ↦ some (c, record m { connection_pool = rest; borrowed = c ∷ m.borrowed })
        ])
              as (λ _. Option (Bool × DbManager)) [
                | none ↦ none
                | some borrowing ↦ some (answers, release_connection borrowing.0 borrowing.1)
              ]
            ≡ some (answers, m'))
    go [] h = absurd (omega (arith, h))
    go (c ∷ rest) h = (_, refl)

pub init_connection_pool-returns :
    (size : ℕ) (driver : Bool) (outcomes : List Bool) (answers : Bool) (m : DbManager)
    → 0 < size
    → (r : Bool × DbManager) × (init_connection_pool size driver outcomes answers m ≡ some r)
unfolding init_connection_pool
init_connection_pool-returns size driver outcomes answers m positive =
    go (fill_pool size driver outcomes m) (fill_pool-fills size driver outcomes m)
  where
    go :
        (filled : Bool × DbManager)
        → (filled.0 ≡ true → size ≤ length filled.1.connection_pool)
        → (r : Bool × DbManager) × ((if filled.0
              then validate_connection answers filled.1
              else some (false, filled.1))
            ≡ some r)
    go (true, m') fills =
        let (back, e) =
          validate_connection-returns answers m' (omega (arith, positive, fills refl)) in
        ((answers, back), e)
    go (false, m') fills = (_, refl)

-- `size` for each attempt
abbrev pub made_by : List Attempt → ℕ → ℕ
made_by [] size = 0
made_by (a ∷ attempts) size = size + made_by attempts size

-- What a series of attempts leaves behind.
pub record Tried (attempts : List Attempt) (m : DbManager) (r : Bool × DbManager) : Type 0 where
  pub same_size : r.1.pool_size ≡ m.pool_size
  pub none_lost : m.created ≤ r.1.created
  pub kept : (c : ℕ) → count c m.connection_pool ≤ count c r.1.connection_pool
  pub bounded : r.1.created ≤ m.created + made_by attempts m.pool_size

pub try_each-Tried :
    (attempts : List Attempt) (m : DbManager) (r : Bool × DbManager)
    → try_each attempts m ≡ some r
    → Tried attempts m r
unfolding try_each
try_each-Tried [] m r e =
    let given_up : Bool × DbManager = (false, m) in
    let p : given_up ≡ r = cc e in
    subst (Tried [] m) p (record {
      same_size = refl;
      none_lost = omega arith;
      kept = λ c. omega arith;
      bounded = omega arith;
    })
try_each-Tried (a ∷ attempts) m r e =
    go (init_connection_pool m.pool_size a.driver a.outcomes a.answers m)
      (λ v k. init_connection_pool-Grown m.pool_size a.driver a.outcomes a.answers m v k)
      (λ v k. try_each-Tried attempts v r k) e
  where
    go :
        (o : Option (Bool × DbManager))
        → ((v : Bool × DbManager) → o ≡ some v → Grown m.pool_size m v)
        → ((v : DbManager) → try_each attempts v ≡ some r → Tried attempts v r)
        → elim o as (λ _. Option (Bool × DbManager)) [
          | none ↦ none
          | some (true, v) ↦ some (true, v)
          | some (false, v) ↦ try_each attempts v
        ]
          ≡ some r
        → Tried (a ∷ attempts) m r
    go none one again e = absurd (cc e)
    go (some (true, v)) one again e =
        let done : Bool × DbManager = (true, v) in
        let g = one done refl in
        let p : done ≡ r = cc e in
        subst (Tried (a ∷ attempts) m) p (record {
          same_size = g.sized;
          none_lost = g.more;
          kept = g.kept;
          bounded = omega (arith, g.bounded);
        })
    go (some (false, v)) one again e =
        let g = one (false, v) refl in
        let t = again v e in
        record {
          same_size = t.same_size ∙ g.sized;
          none_lost = omega (arith, t.none_lost, g.more);
          kept = λ c. omega (arith, g.kept c, t.kept c);
          bounded = omega (arith, t.bounded, g.bounded, ap (made_by attempts) g.sized);
        }

pub try_each-returns :
    (attempts : List Attempt) (m : DbManager)
    → 0 < m.pool_size
    → (r : Bool × DbManager) × (try_each attempts m ≡ some r)
unfolding try_each
try_each-returns [] m positive = ((false, m), refl)
try_each-returns (a ∷ attempts) m positive =
    let (r, e) =
      init_connection_pool-returns m.pool_size a.driver a.outcomes a.answers m positive in
    go (init_connection_pool m.pool_size a.driver a.outcomes a.answers m) r e
      (init_connection_pool-Grown m.pool_size a.driver a.outcomes a.answers m r e)
      (λ v h. try_each-returns attempts v h)
  where
    go :
        (o : Option (Bool × DbManager)) (r : Bool × DbManager)
        → o ≡ some r
        → Grown m.pool_size m r
        → ((v : DbManager)
            → 0 < v.pool_size
            → (r : Bool × DbManager) × (try_each attempts v ≡ some r))
        → (r : Bool × DbManager) × (elim o as (λ _. Option (Bool × DbManager)) [
          | none ↦ none
          | some (true, v) ↦ some (true, v)
          | some (false, v) ↦ try_each attempts v
        ]
            ≡ some r)
    go none r e g again = absurd (cc e)
    go (some (true, v)) r e g again = ((true, v), refl)
    go (some (false, v)) r e g again =
        let left : r.1 ≡ v =
          ap
            (λ (o : Option (Bool × DbManager)). elim o as (λ _. DbManager) [
              | none ↦ v
              | some x ↦ x.1
            ])
            (sym e) in
        again v (omega (arith, positive, g.sized, ap (λ (x : DbManager). x.pool_size) left))

-- Once the pool has a positive size, Reconnect returns, whatever its attempts meet: it never waits for
-- a connection in an empty pool.
pub reconnect-returns :
    (first second third : Attempt) (m : DbManager)
    → 0 < m.pool_size
    → (r : Bool × DbManager) × (reconnect first second third m ≡ some r)
unfolding reconnect
reconnect-returns first second third m positive =
    try_each-returns (first ∷ second ∷ third ∷ []) m positive
