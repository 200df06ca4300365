-- ===== src/World/Statement.antt =====
-- The frame of every method of the data access classes: a connection from the pool, a prepared
-- statement, and a handler that turns sql::SQLException into a failure. GetConnection waits until
-- the pool has a connection and so never returns nullptr: that branch of the methods is dead.
use lite_chat_server.Common.{Bool, Option, false, if◌then◌else◌, none, some, true}
use lite_chat_server.Database.{Database}
use lite_chat_server.World.{M, World, answers, gets, pure, update, ◌>>=◌, ◌>>◌}

-- A statement that breaks a constraint throws, like one that the server fails to answer.
unfoldable pub commit : Option Database → M Bool
commit none = pure false
commit (some db) = do update (λ w. record w { db = db }); pure true

-- executeUpdate, and `result = true` behind it
unfoldable pub execute_update : (World → Option Database) → M Bool
unfolding commit answers
execute_update statement = do
  ok ← answers
  next ← gets statement
  if ok then commit next else pure false

-- executeQuery: `none` is the exception
unfoldable pub execute_query : {A : Type 0} → (Database → A) → M (Option A)
unfolding answers
execute_query query = do
  ok ← answers
  result ← gets (λ w. query w.db)
  pure (if ok then some result else none)
