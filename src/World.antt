-- ===== src/World.antt =====
-- The state that the parts of the server share, and the actions on it. What the outside decides is
-- part of the state: the outcomes of the statements that MySQL is still to answer, and the results of
-- the calls of send() still to come. A list that has run out stands for calls that succeed.
pub mod Keeps
pub mod Statement
pub mod Frame
pub mod Yields
use lite_chat_server.Common.{Bool, List, Option, Str, [], if◌then◌else◌, none, some, true, ℕ, ◌∷◌}
use lite_chat_server.Sessions.{SessionManager}
use lite_chat_server.Database.{Database}

pub record World : Type 0 where
  pub sessions : SessionManager
  pub db : Database
  -- FriendManager::cachedFriendLists
  pub cached_friend_lists : List (Str × List Str)
  -- Server::currentConnections
  pub current_connections : ℕ
  -- Server::running
  pub running : Bool
  -- the bytes that send() has accepted, call by call
  pub outbox : List (ℕ × Str)
  -- the sockets on which shutdown() was called, and those that were closed
  pub shut : List ℕ
  pub closed : List ℕ
  -- time(nullptr), and NOW() of the database
  pub now : ℕ
  -- does the statement answer, or throw?
  pub db_results : List Bool
  -- how many bytes does send() accept? 0 stands for an error
  pub send_results : List ℕ

abbrev pub M : Type 0 → Type 0
M A = World → A × World

unfoldable pub pure : {A : Type 0} → A → M A
pure a w = (a, w)

unfoldable pub gets : {A : Type 0} → (World → A) → M A
gets f w = (f w, w)

unfoldable pub update : (World → World) → M (Unit {0})
update f w = (tt, f w)

infixl 5 ◌>>=◌ ◌>>◌
-- opening this opens `pure`, `gets` and `update` too
unfoldable pub ◌>>=◌ : {A B : Type 0} → M A → (A → M B) → M B
unfolding pure gets update
◌>>=◌ m f w = let (a, w') = m w in f a w'

abbrev pub ◌>>◌ : {A B : Type 0} → M A → M B → M B
m >> k = m >>= λ _. k

abbrev pub when : Bool → M (Unit {0}) → M (Unit {0})
when b m = if b then m else pure tt

-- if(!x) { ... return; } before the rest, which has the value of x
abbrev pub or_else : {A B : Type 0} → Option A → M B → (A → M B) → M B
or_else none m f = m
or_else (some a) m f = f a

-- A write to the sessions.
abbrev pub on_sessions : (SessionManager → SessionManager) → M (Unit {0})
on_sessions f = update λ w. record w { sessions = f w.sessions }

-- The outcome of the next statement.
unfoldable pub answers : M Bool
answers w = elim w.db_results [ [] ↦ (true, w) | r ∷ rest ↦ (r, record w { db_results = rest }) ]
