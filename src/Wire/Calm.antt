-- ===== src/Wire/Calm.antt =====
-- Runs in which nothing outside fails: every statement is answered, every send() takes all bytes.
use lite_chat_server.Common.{
  Option, Str, [], ap, drop, length, refl, some, suc, true, ℕ, ◌++◌, ◌∷◌, ◌≡◌,
}
use lite_chat_server.Database.{Database}
use lite_chat_server.World.{World, pure, ◌>>=◌}
use lite_chat_server.World.Statement.{commit, execute_query, execute_update}
use lite_chat_server.Wire.{package_message, send_data, send_loop, send_some}

-- The world with no failure in store.
abbrev pub calm : World → World
calm w = record w { db_results = []; send_results = [] }

-- The world with one more call of send() behind it, and with other tables.
abbrev pub put_out : ℕ → Str → World → World
put_out socket text w = record w { outbox = w.outbox ++ (socket, package_message text) ∷ [] }

abbrev pub with_db : Database → World → World
with_db db w = record w { db = db }

drop-length : (s : Str) → drop (length s) s ≡ []
drop-length [] = refl
drop-length (c ∷ s) = drop-length s

send_loop-calm :
    (fuel socket c : ℕ) (rest : Str) (w : World)
    → send_loop (suc (suc fuel)) socket (c ∷ rest) (calm w)
      ≡ (true, calm (record w { outbox = w.outbox ++ (socket, c ∷ rest) ∷ [] }))
unfolding send_loop send_some ◌>>=◌ pure
send_loop-calm fuel socket c rest w =
    ap
      (λ s.
        send_loop (suc fuel) socket s
          (calm (record w { outbox = w.outbox ++ (socket, c ∷ rest) ∷ [] })))
      (drop-length rest)

pub send_data-calm :
    (socket : ℕ) (text : Str) (w : World)
    → send_data socket text (calm w) ≡ (true, calm (put_out socket text w))
unfolding send_data package_message
send_data-calm socket text w = send_loop-calm _ socket _ _ w

pub execute_query-calm :
    {A : Type 0} (query : Database → A) (w : World)
    → execute_query query (calm w) ≡ (some (query w.db), calm w)
unfolding execute_query ◌>>=◌
execute_query-calm query w = refl

pub execute_update-calm :
    (statement : World → Option Database) (w : World) (db : Database)
    → statement (calm w) ≡ some db
    → execute_update statement (calm w) ≡ (true, calm (with_db db w))
unfolding execute_update commit ◌>>=◌
execute_update-calm statement w db e = ap (λ o. commit o (calm w)) e
