-- ===== src/World/Frame.antt =====
-- What an action leaves alone: a send and a query leave sessions and tables, a statement the sessions.
use lite_chat_server.Common.{
  Bool, List, Option, Str, [], drop, false, if◌then◌else◌, none, refl, some, suc, true, zero, ℕ,
  ◌∷◌, ◌≡◌,
}
use lite_chat_server.Sessions.{ClientSession, SessionManager, bind_username, write_session}
use lite_chat_server.Database.{Database, IsStatement}
use lite_chat_server.World.{World, answers, pure, ◌>>=◌}
use lite_chat_server.World.Keeps.{Keeps, Keeps-bind, Keeps-number, Keeps-pure, keeps_rules}
use lite_chat_server.World.Statement.{commit, execute_query, execute_update}
use lite_chat_server.Host.{Host}
use lite_chat_server.Wire.{package_message, send_data, send_loop, send_some}

-- A property of the sessions, the tables and the counter of connections.
abbrev pub On : (SessionManager → Database → ℕ → Type 0) → World → Type 0
On R w = R w.sessions w.db w.current_connections

-- One of the sessions and the counter, one of the sessions alone, and one of the tables.
abbrev pub OfRoom : (SessionManager → ℕ → Type 0) → World → Type 0
OfRoom Q = On (λ m _ n. Q m n)

abbrev pub OfSessions : (SessionManager → Type 0) → World → Type 0
OfSessions Q = On (λ m _ _. Q m)

abbrev pub OfDatabase : (Database → Type 0) → World → Type 0
OfDatabase Q = On (λ _ db _. Q db)

module _ (R : SessionManager → Database → ℕ → Type 0) where
  pub send_some-Keeps : (socket : ℕ) (rest : Str) → Keeps (On R) (send_some socket rest)
  unfolding send_some
  send_some-Keeps socket rest = record { at = λ w h. go w w.send_results refl h }
    where
      go : (w : World) (r : List ℕ) → w.send_results ≡ r → On R w → On R (send_some socket rest w).1
      go w [] e h = rw (e, send_some) h
      go w (zero ∷ later) e h = rw (e, send_some) h
      go w (suc n ∷ later) e h = rw (e, send_some) h

  send_loop-Keeps : (fuel socket : ℕ) (rest : Str) → Keeps (On R) (send_loop fuel socket rest)
  unfolding send_loop
  send_loop-Keeps zero socket rest = Keeps-pure false
  send_loop-Keeps (suc fuel) socket [] = Keeps-pure true
  send_loop-Keeps (suc fuel) socket (c ∷ rest) =
      Keeps-bind (send_some socket (c ∷ rest)) _ (send_some-Keeps socket (c ∷ rest)) λ sent.
        Keeps-number sent _ _ (Keeps-pure false) λ n. send_loop-Keeps fuel socket (drop n rest)

  pub send_data-Keeps : (socket : ℕ) (body : Str) → Keeps (On R) (send_data socket body)
  unfolding send_data
  send_data-Keeps socket body = send_loop-Keeps _ socket (package_message body)

  pub answers-Keeps : Keeps (On R) answers
  unfolding answers
  answers-Keeps = record { at = λ w h. go w w.db_results refl h }
    where
      go : (w : World) (r : List Bool) → w.db_results ≡ r → On R w → On R (answers w).1
      go w [] e h = rw (e, answers) h
      go w (r ∷ later) e h = rw (e, answers) h

  pub execute_query-Keeps : {A : Type 0} (query : Database → A) → Keeps (On R) (execute_query query)
  unfolding execute_query
  execute_query-Keeps query = search (keeps_rules, answers-Keeps)

  -- A statement keeps what its result keeps.
  pub execute_update-Keeps :
      (statement : World → Option Database)
      → ((w : World) (db : Database)
          → On R w
          → statement w ≡ some db
          → R w.sessions db w.current_connections)
      → Keeps (On R) (execute_update statement)
  unfolding execute_update ◌>>=◌
  execute_update-Keeps statement k = record {
    at = λ w h. let (ok, w') = answers w in go ok w' (answers-Keeps.at w h) (statement w') refl;
  }
    where
      go :
          (ok : Bool) (w : World)
          → On R w
          → (next : Option Database) → statement w ≡ next
          → On R ((if ok then commit next else pure false) w).1
      go false w h next e = h
      go true w h none e = h
      go true w h (some db) e = k w db h e

-- What every statement keeps, be it of the sessions, the tables or the counter of connections.
pub record Invariant ⦃host : Host⦄ : Type 1 where
  pub R : SessionManager → Database → ℕ → Type 0
  pub kept :
      {f : Database → Option Database}
      → IsStatement f
      → {m : SessionManager} {db db' : Database} {n : ℕ} → R m db n
      → f db ≡ some db'
      → R m db' n

module _ ⦃host : Host⦄ where
  abbrev pub room : (SessionManager → ℕ → Type 0) → Invariant
  room Q = record { R = λ m _ n. Q m n; kept = λ s h e. h }

-- And what a write to a session and a new name keep too.
pub record Steady ⦃host : Host⦄ : Type 1 where
  pub invariant : Invariant
  pub open invariant use *
  pub written :
      {m : SessionManager} {db : Database} {n : ℕ}
      → (s : ℕ) (f : ClientSession → ClientSession) → R m db n
      → R (write_session s f m) db n
  pub bound :
      {m : SessionManager} {db : Database} {n : ℕ}
      → (s : ℕ) (u : Str) → R m db n
      → R (bind_username s u m) db n
