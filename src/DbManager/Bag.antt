-- ===== src/DbManager/Bag.antt =====
-- The pool as its clients see it: a bag of idle connections and a bag of those that are lent out. The
-- order of the queue is forgotten by a quotient.
use mathlib.Core.Quot
use mathlib.Core.Quot.{Quot, Quot-set}
use lite_chat_server.Common.{List, [], arith, count, count-snoc, ℕ, ◌++◌, ◌+◌, ◌∷◌, ◌≡◌}
use lite_chat_server.DbManager.{DbManager}
use lite_chat_server.DbManager.Sharing.{
  DbReach, DbStep, borrows, initialises, moves, reconnects, returns, stays,
}

-- The same connections, each as often.
abbrev SameConnections : List ℕ → List ℕ → Type 0
SameConnections xs ys = (c : ℕ) → count c xs ≡ count c ys

abbrev pub Bag : Type 0
Bag = Quot SameConnections

abbrev pub bag : List ℕ → Bag
bag xs = Quot.mk xs

-- One more connection in a bag.
unfoldable pub put : ℕ → Bag → Bag
put conn =
    Quot.lift Quot-set (λ xs. Quot.mk (conn ∷ xs)) (λ xs ys h. Quot.sound (λ c. omega (arith, h c)))

-- How often a connection is in a bag.
unfoldable pub units : ℕ → Bag → ℕ
units conn = Quot.lift (hlevel) (count conn) λ xs ys h. h conn

-- What a client knows of the pool.
pub record View : Type 0 where
  pub idle : Bag
  pub lent : Bag

unfoldable pub view : DbManager → View
view m = record { idle = bag m.connection_pool; lent = bag m.borrowed }

-- A call of a client: it borrows this connection, gives it back, or has connections made.
pub data Call : Type 0 where
  borrowed returned : ℕ → Call
  refilled : Call

-- Connections are made, each one that is neither idle nor lent, and put to the idle ones.
pub data Grows (before : View) : View → Type 0 where
  stays_same : Grows before before
  makes :
      {v : View}
      → Grows before v
      → (conn : ℕ) → units conn v.idle + units conn v.lent ≡ 0
      → Grows before (record { idle = put conn v.idle; lent = v.lent })

-- What a pool of connections promises of each call.
pub data ViewStep (before : View) : Call → View → Type 0 where
  takes :
      (conn : ℕ) (idle : Bag)
      → before.idle ≡ put conn idle
      → ViewStep before (borrowed conn) (record { idle = idle; lent = put conn before.lent })
  gives_back :
      (conn : ℕ) (lent : Bag)
      → before.lent ≡ put conn lent
      → ViewStep before (returned conn) (record { idle = put conn before.idle; lent = lent })
  refills : {v : View} → Grows before v → ViewStep before refilled v

-- A series of calls, the last one first.
pub data ViewRun (before : View) : List Call → View → Type 0 where
  rests : ViewRun before [] before
  does :
      {calls : List Call} {call : Call} {v u : View}
      → ViewRun before calls v
      → ViewStep v call u
      → ViewRun before (call ∷ calls) u

-- The calls that brought the pool from one state to another, the last one first.
unfoldable pub call_of : {m u : DbManager} → DbStep m u → Call
call_of (borrows conn e) = borrowed conn
call_of (returns conn held) = returned conn
call_of (initialises size driver outcomes answers e) = refilled
call_of (reconnects first second third e) = refilled

unfoldable pub calls_of : {m u : DbManager} → DbReach m u → List Call
unfolding call_of
calls_of stays = []
calls_of (moves r s) = call_of s ∷ calls_of r

-- The end of the queue and its front are the same place in a bag.
pub bag-snoc : (conn : ℕ) (xs : List ℕ) → put conn (bag xs) ≡ bag (xs ++ conn ∷ [])
unfolding put
bag-snoc conn xs = Quot.sound (λ c. omega (arith, count-snoc c conn xs))

pub bag-rotate : (conn : ℕ) (xs : List ℕ) → bag (xs ++ conn ∷ []) ≡ bag (conn ∷ xs)
bag-rotate conn xs = Quot.sound (λ c. omega (arith, count-snoc c conn xs))
