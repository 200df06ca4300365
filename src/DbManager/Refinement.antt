-- ===== src/DbManager/Refinement.antt =====
-- What the calls of the pool do to the bags.
use mathlib.Core.Quot
use mathlib.Core.Quot.{Quot, Quot-set}
use lite_chat_server.Common.{
  ◌∙◌, sym, Bool, List, Option, [], ap, arith, count, if◌then◌else◌, none, refl, some, subst, suc,
  zero, true, false, ℕ, ◌++◌, ◌<◌, ◌∷◌, ◌≡◌,
}
use lite_chat_server.DbManager.{
  DbManager, get_connection, create_each, push_new, fill_pool, init_connection_pool, reconnect,
  try_each, Attempt, release_connection, validate_connection, without,
}
use lite_chat_server.DbManager.Sharing.{
  DbReach, DbReach-IsShared, DbStep, IsShared, borrows, count-without,
  init_connection_pool-IsShared, initialises, moves, push_new-IsShared, reconnects, resize-IsShared,
  returns, stays,
}
use lite_chat_server.DbManager.Bag.{
  Bag, Grows, View, ViewRun, ViewStep, bag, bag-rotate, bag-snoc, borrowed, call_of, calls_of, does,
  gives_back, makes, put, refills, rests, returned, stays_same, takes, units, view,
}

Grows-trans : {a b c : View} → Grows a b → Grows b c → Grows a c
Grows-trans g stays_same = g
Grows-trans g (makes h conn new) = makes (Grows-trans g h) conn new

get_connection-takes :
    (m : DbManager) (conn : ℕ) (m' : DbManager)
    → get_connection m ≡ some (conn, m')
    → ViewStep (view m) (borrowed conn) (view m') × (0 < count conn m'.borrowed)
unfolding get_connection view put
get_connection-takes m conn m' e = go m.connection_pool refl e
  where
    go :
        (pool : List ℕ)
        → m.connection_pool ≡ pool
        → elim pool as (λ _. Option (ℕ × DbManager)) [
          | [] ↦ none
          | c ∷ rest ↦ some (c, record m { connection_pool = rest; borrowed = c ∷ m.borrowed })
        ]
          ≡ some (conn, m')
        → ViewStep (view m) (borrowed conn) (view m') × (0 < count conn m'.borrowed)
    go [] k e = absurd (cc e)
    go (c ∷ rest) k e =
        let lent : ℕ × DbManager =
          (c, record m { connection_pool = rest; borrowed = c ∷ m.borrowed }) in
        let p : lent ≡ (conn, m') = cc e in
        subst
          (λ (r : ℕ × DbManager).
            ViewStep (view m) (borrowed r.0) (view r.1) × (0 < count r.0 r.1.borrowed))
          p (takes c (bag rest) (ap bag k), ground arith)

release_connection-gives :
    (m : DbManager) (conn : ℕ)
    → 0 < count conn m.borrowed
    → ViewStep (view m) (returned conn) (view (release_connection conn m))
unfolding release_connection view put
release_connection-gives m conn held =
    subst
      (λ idle.
        ViewStep (view m) (returned conn)
          (record { idle = idle; lent = bag (without conn m.borrowed) }))
      (bag-snoc conn m.connection_pool)
      (gives_back conn (bag (without conn m.borrowed))
        (Quot.sound (λ c. omega (arith, count-without c conn m.borrowed held))))

-- The connection that is made is neither idle nor lent.
push_new-makes : (m : DbManager) → IsShared m → Grows (view m) (view (push_new m))
unfolding view units
push_new-makes m s =
    subst (λ idle. Grows (view m) (record { idle = idle; lent = bag m.borrowed }))
      (bag-snoc m.created m.connection_pool)
      (makes stays_same m.created (ground (arith, s.once m.created)))

create_each-Grows :
    (i : ℕ) (outcomes : List Bool) (m : DbManager)
    → IsShared m
    → Grows (view m) (view (create_each i outcomes m).1)
unfolding create_each
create_each-Grows zero outcomes m s = stays_same
create_each-Grows (suc i) [] m s =
    Grows-trans (push_new-makes m s) (create_each-Grows i [] (push_new m) (push_new-IsShared m s))
create_each-Grows (suc i) (false ∷ outcomes) m s = stays_same
create_each-Grows (suc i) (true ∷ outcomes) m s =
    Grows-trans (push_new-makes m s)
      (create_each-Grows i outcomes (push_new m) (push_new-IsShared m s))

fill_pool-Grows :
    (size : ℕ) (driver : Bool) (outcomes : List Bool) (m : DbManager)
    → IsShared m
    → Grows (view m) (view (fill_pool size driver outcomes m).1)
unfolding fill_pool view
fill_pool-Grows size true outcomes m s =
    create_each-Grows size outcomes (record m { pool_size = size }) (resize-IsShared m s size)
fill_pool-Grows size false outcomes m s = stays_same

-- ValidateConnection puts the connection that it borrows back, at the other end of the queue.
pub validate_connection-view :
    (answers : Bool) (m : DbManager) (r : Bool × DbManager)
    → validate_connection answers m ≡ some r
    → view r.1 ≡ view m
unfolding validate_connection get_connection release_connection view
validate_connection-view answers m r e = go m.connection_pool refl e
  where
    go :
        (pool : List ℕ)
        → m.connection_pool ≡ pool
        → elim (elim pool as (λ _. Option (ℕ × DbManager)) [
          | [] ↦ none
          | conn ∷ rest ↦
              some (conn, record m { connection_pool = rest; borrowed = conn ∷ m.borrowed })
        ])
            as (λ _. Option (Bool × DbManager)) [
              | none ↦ none
              | some borrowing ↦ some (answers, release_connection borrowing.0 borrowing.1)
            ]
          ≡ some r
        → view r.1 ≡ view m
    go [] k e = absurd (cc e)
    go (conn ∷ rest) k e =
        let lent : List ℕ = without conn (conn ∷ m.borrowed) in
        let after : Bool × DbManager =
          (answers, record m { connection_pool = rest ++ conn ∷ []; borrowed = lent }) in
        let idle_same : bag (rest ++ conn ∷ []) ≡ bag m.connection_pool =
          bag-rotate conn rest ∙ ap bag (sym k) in
        let lent_same : lent ≡ m.borrowed = ground arith in
        let same : view after.1 ≡ view m =
          ap (λ (idle : Bag). record { idle = idle; lent = bag lent }) idle_same
          ∙ ap (λ (l : List ℕ). record { idle = bag m.connection_pool; lent = bag l }) lent_same in
        let p : after ≡ r = cc e in subst (λ (x : Bool × DbManager). view x.1 ≡ view m) p same

init_connection_pool-Grows :
    (size : ℕ) (driver : Bool) (outcomes : List Bool) (answers : Bool) (m : DbManager)
    (r : Bool × DbManager)
    → IsShared m
    → init_connection_pool size driver outcomes answers m ≡ some r
    → Grows (view m) (view r.1)
unfolding init_connection_pool
init_connection_pool-Grows size driver outcomes answers m r s e =
    go (fill_pool size driver outcomes m) (fill_pool-Grows size driver outcomes m s) e
  where
    go :
        (filled : Bool × DbManager)
        → Grows (view m) (view filled.1)
        → (if filled.0 then validate_connection answers filled.1 else some (false, filled.1))
          ≡ some r
        → Grows (view m) (view r.1)
    go (true, m') v e = subst (Grows (view m)) (sym (validate_connection-view answers m' r e)) v
    go (false, m') v e =
        let left : Bool × DbManager = (false, m') in
        let p : left ≡ r = cc e in subst (λ (x : Bool × DbManager). Grows (view m) (view x.1)) p v

try_each-Grows :
    (attempts : List Attempt) (m : DbManager) (r : Bool × DbManager)
    → IsShared m
    → try_each attempts m ≡ some r
    → Grows (view m) (view r.1)
unfolding try_each
try_each-Grows [] m r s e =
    let given_up : Bool × DbManager = (false, m) in
    let p : given_up ≡ r = cc e in
    subst (λ (x : Bool × DbManager). Grows (view m) (view x.1)) p stays_same
try_each-Grows (a ∷ attempts) m r s e =
    go (init_connection_pool m.pool_size a.driver a.outcomes a.answers m)
      (λ x k. (
        init_connection_pool-Grows m.pool_size a.driver a.outcomes a.answers m x s k,
        init_connection_pool-IsShared m.pool_size a.driver a.outcomes a.answers m x s k,
      ))
      (λ m' s' k. try_each-Grows attempts m' r s' k) e
  where
    go :
        (o : Option (Bool × DbManager))
        → ((x : Bool × DbManager) → o ≡ some x → Grows (view m) (view x.1) × IsShared x.1)
        → ((m' : DbManager)
            → IsShared m'
            → try_each attempts m' ≡ some r
            → Grows (view m') (view r.1))
        → elim o as (λ _. Option (Bool × DbManager)) [
          | none ↦ none
          | some (true, m') ↦ some (true, m')
          | some (false, m') ↦ try_each attempts m'
        ]
          ≡ some r
        → Grows (view m) (view r.1)
    go none one again e = absurd (cc e)
    go (some (true, m')) one again e =
        let done : Bool × DbManager = (true, m') in
        let p : done ≡ r = cc e in
        subst (λ (x : Bool × DbManager). Grows (view m) (view x.1)) p (one (true, m') refl).0
    go (some (false, m')) one again e =
        let (grown, shared) = one (false, m') refl in Grows-trans grown (again m' shared e)

DbStep-refines :
    {m u : DbManager} (t : DbStep m u) → IsShared m → ViewStep (view m) (call_of t) (view u)
unfolding reconnect call_of
DbStep-refines {m} (borrows conn {m'} e) s = (get_connection-takes m conn m' e).0
DbStep-refines {m} (returns conn held) s = release_connection-gives m conn held
DbStep-refines {m} (initialises size driver outcomes answers e) s =
    refills (init_connection_pool-Grows size driver outcomes answers m _ s e)
DbStep-refines {m} (reconnects first second third e) s = refills (try_each-Grows _ m _ s e)

-- The pool refines a bag of idle connections and one of lent ones. From a pool in which each connection
-- that was made is once idle or once lent, as the empty one, in the view of its clients, which forgets
-- the order of the queue: GetConnection takes the connection that it returns out of the idle ones and
-- lends it out, ReleaseConnection does the opposite with the one that it is given, and
-- InitConnectionPool and Reconnect put connections to the idle ones, each of them neither idle nor lent
-- before, and leave the lent ones as they are.
pub pool_refines_bag :
    (m u : DbManager) → IsShared m → (r : DbReach m u) → ViewRun (view m) (calls_of r) (view u)
unfolding calls_of call_of
pool_refines_bag m u s stays = rests
pool_refines_bag m u s (moves {v} r t) =
    does (pool_refines_bag m v s r) (DbStep-refines t (DbReach-IsShared r s))
