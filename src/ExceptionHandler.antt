-- ===== src/ExceptionHandler.antt =====
-- system/exception_handler.cpp: the attempts to reconnect. What it logs is left out, so that
-- HandleException and HandleNetworkException are nothing; HandleClientException is
-- `handle_client_exception` of Server.Connections.
pub mod Reconnecting
use lite_chat_server.Common.{Bool, List, Option, [], false, none, some, true, ◌∷◌}
use lite_chat_server.DbManager.{Attempt, DbManager, reconnect}

-- What the three attempts of one call of Reconnect meet.
pub record Round : Type 0 where
  pub first : Attempt
  pub second : Attempt
  pub third : Attempt

-- `for(int i = 1; i <= maxRetries; i++)`, for the rounds that are left
unfoldable pub retry_each : List Round → DbManager → Option (Bool × DbManager)
retry_each [] m = some (false, m)
retry_each (round ∷ rounds) m = elim (reconnect round.first round.second round.third m) [
  | none ↦ none
  | some (true, m') ↦ some (true, m')
  | some (false, m') ↦ retry_each rounds m'
]

-- maxRetries is 3. `dbManager` may be nullptr. The result tells whether the loop has returned early,
-- which is logged.
unfoldable pub handle_db_exception :
    Round → Round → Round → Option DbManager → Option (Bool × Option DbManager)
handle_db_exception one two three none = some (false, none)
handle_db_exception one two three (some m) = elim (retry_each (one ∷ two ∷ three ∷ []) m) [
  | none ↦ none
  | some (reconnected, m') ↦ some (reconnected, some m')
]
