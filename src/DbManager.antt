-- ===== src/DbManager.antt =====
-- system/db_manager.cpp: the pool of database connections. A connection is a number; which calls of
-- the MySQL connector succeed is decided outside.
pub mod Sharing
pub mod Growth
pub mod Returning
pub mod Bag
pub mod Refinement
pub mod Destruction
use lite_chat_server.Common.{
  Bool, List, Option, [], false, if◌then◌else◌, none, some, suc, true, zero, ℕ, ◌++◌, ◌+◌, ◌==◌,
  ◌∷◌, nat_eq, str_eq,
}

pub record DbManager : Type 0 where
  pub connection_pool : List ℕ
  pub pool_size : ℕ
  -- The connections that GetConnection has handed out, and the number of connections made so far.
  pub borrowed : List ℕ
  pub created : ℕ

abbrev pub no_pool : DbManager
no_pool = record { connection_pool = []; pool_size = 0; borrowed = []; created = 0 }

-- The caller waits while the pool is empty: `none`.
unfoldable pub get_connection : DbManager → Option (ℕ × DbManager)
get_connection m = elim m.connection_pool [
  | [] ↦ none
  | conn ∷ rest ↦ some (conn, record m { connection_pool = rest; borrowed = conn ∷ m.borrowed })
]

abbrev pub without : ℕ → List ℕ → List ℕ
without conn [] = []
without conn (x ∷ xs) = if x == conn then xs else x ∷ without conn xs

unfoldable pub release_connection : ℕ → DbManager → DbManager
release_connection conn m = record m {
  connection_pool = m.connection_pool ++ conn ∷ [];
  borrowed = without conn m.borrowed;
}

-- CreateConnection that has succeeded, and push
abbrev pub push_new : DbManager → DbManager
push_new m = record m {
  connection_pool = m.connection_pool ++ m.created ∷ [];
  created = m.created + 1;
}

-- The loop of InitConnectionPool: the connections still to be made, and whether each can be made.
-- Outcomes that have run out stand for success.
unfoldable pub create_each : ℕ → List Bool → DbManager → Bool × DbManager
create_each zero outcomes m = (true, m)
create_each (suc i) [] m = create_each i [] (push_new m)
create_each (suc i) (false ∷ outcomes) m = (false, m)
create_each (suc i) (true ∷ outcomes) m = create_each i outcomes (push_new m)

-- InitConnectionPool but for its last line, which asks ValidateConnection. `driver` tells whether the
-- driver is there.
unfoldable pub fill_pool : ℕ → Bool → List Bool → DbManager → Bool × DbManager
fill_pool size driver outcomes m =
    if driver
    then create_each size outcomes (record m { pool_size = size })
    else (false, record m { pool_size = size })

-- ValidateConnection borrows a connection, which answers or not, and gives it back; with an empty
-- pool it waits.
unfoldable pub validate_connection : Bool → DbManager → Option (Bool × DbManager)
validate_connection answers m = elim (get_connection m) [
  | none ↦ none
  | some borrowing ↦ some (answers, release_connection borrowing.0 borrowing.1)
]

unfoldable pub init_connection_pool :
    ℕ → Bool → List Bool → Bool → DbManager → Option (Bool × DbManager)
init_connection_pool size driver outcomes answers m =
    let (filled, m') = fill_pool size driver outcomes m in
    if filled then validate_connection answers m' else some (false, m')

-- What one attempt of Reconnect meets.
pub record Attempt : Type 0 where
  pub driver : Bool
  pub outcomes : List Bool
  pub answers : Bool

-- Reconnect, for the attempts that are left: there are three.
unfoldable pub try_each : List Attempt → DbManager → Option (Bool × DbManager)
try_each [] m = some (false, m)
try_each (a ∷ attempts) m =
    elim (init_connection_pool m.pool_size a.driver a.outcomes a.answers m) [
      | none ↦ none
      | some (true, m') ↦ some (true, m')
      | some (false, m') ↦ try_each attempts m'
    ]

unfoldable pub reconnect : Attempt → Attempt → Attempt → DbManager → Option (Bool × DbManager)
reconnect first second third m = try_each (first ∷ second ∷ third ∷ []) m

-- ~DBManager: the connections that it destroys, in order, and what is left.
unfoldable pub destroy_each : List ℕ → DbManager → List ℕ × DbManager
destroy_each [] m = ([], record m { connection_pool = [] })
destroy_each (conn ∷ rest) m =
    let (destroyed, m') = destroy_each rest (record m { connection_pool = rest }) in
    (conn ∷ destroyed, m')

unfoldable pub destroy_pool : DbManager → List ℕ × DbManager
unfolding destroy_each
destroy_pool m = destroy_each m.connection_pool m
