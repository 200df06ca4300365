-- ===== src/Lifecycle/Exits.antt =====
-- How the main program ends.
use lite_chat_server.Common.{
  Bool, List, [], ap, arith, count, false≢true, inr, ◌<◌, false, if◌then◌else◌, ltb, none, refl,
  some, sym, true, ℕ, ◌+◌, ◌∙◌, ◌≡◌,
}
use lite_chat_server.Host.{Host}
use lite_chat_server.DbManager.{DbManager, destroy_pool, init_connection_pool, no_pool}
use lite_chat_server.DbManager.Sharing.{DbReach, initialises, moves, stays}
use lite_chat_server.DbManager.Returning.{init_connection_pool-returns}
use lite_chat_server.DbManager.Destruction.{destroy_pool-all, destroy_pool-created}
use lite_chat_server.DbManager.Growth.{init_connection_pool-Grown}
use lite_chat_server.Lifecycle.{
  Calls, Exit, Meets, ServerObject, destroy_server, exit_with, handle_signals, join_accept,
  main_program, new_server, run_server, set_db_manager, start_server,
}
use lite_chat_server.Lifecycle.Closing.{destroy_server-returns, signals_then_end}
use lite_chat_server.Lifecycle.Starting.{IsStarted, closings, start_server-IsStarted, starts_well}

-- Every connection that was made is destroyed, once, and none is left in the pool.
abbrev pub AllDestroyed : Exit → Type 0
AllDestroyed e =
    (e.db_manager.connection_pool ≡ [])
    × ((c : ℕ) → count c e.destroyed ≡ (if ltb c e.db_manager.created then 1 else 0))

-- What the threads of the server do to a pool that lends nothing out: they keep its rules and give back
-- what they borrow.
abbrev pub Serves : (DbManager → DbManager) → Type 0
Serves serve =
    (m : DbManager)
    → DbReach no_pool m
    → m.borrowed ≡ []
    → DbReach no_pool (serve m) × ((serve m).borrowed ≡ [])

exit_with-AllDestroyed :
    (code : ℕ) (s : ServerObject) (m : DbManager)
    → DbReach no_pool m
    → m.borrowed ≡ []
    → AllDestroyed (exit_with code s m)
exit_with-AllDestroyed code s m r none_lent =
    let (left, _, once) = destroy_pool-all m r in
    (
      left,
      λ c.
          zero_more c (once c)
          ∙ ap (λ created. if ltb c created then 1 else 0) (sym (destroy_pool-created m)),
    )
  where
    zero_more :
        (c : ℕ)
        → count c (destroy_pool m).0 + count c m.borrowed ≡ (if ltb c m.created then 1 else 0)
        → count c (destroy_pool m).0 ≡ (if ltb c m.created then 1 else 0)
    zero_more c e =
        let nothing : count c m.borrowed ≡ 0 = ap (count c) none_lent in
        sym (omega arith) ∙ ap (λ x. count c (destroy_pool m).0 + x) (sym nothing) ∙ e

-- The exit code, and what is closed.
abbrev pub code_of : Bool → Calls → ℕ
code_of success calls = if success then if starts_well calls then 0 else 1 else 1

abbrev pub closed_of : Bool → Calls → List ℕ
closed_of success calls = if success then closings calls else []

-- How a program ends whose pool has been made with success or without.
abbrev pub Ends : Bool → Meets → Exit → Type 0
Ends success o e =
    (e.code ≡ code_of success o.calls)
    × (e.server.closed ≡ closed_of success o.calls)
    × AllDestroyed e

module _ ⦃host : Host⦄ (o : Meets) where
  run_server-Ends :
      (m served : DbManager)
      → DbReach no_pool m
      → m.borrowed ≡ []
      → DbReach no_pool served
      → served.borrowed ≡ []
      → 0 < o.signals
      → o.workers_return ≡ true
      → (e : Exit) × (run_server o m served ≡ some e) × Ends true o e
  run_server-Ends m served r l r' l' some_come return =
      go o.workers_return return (start_server o.calls o.outside (set_db_manager new_server))
        (start_server-IsStarted o.calls o.outside)
    where
      go :
          (back : Bool)
          → back ≡ true
          → (start : Bool × ServerObject) → IsStarted o.calls start
          → (e : Exit) × ((if start.0
                then elim (handle_signals o.signals start.1) [
                  | none ↦ none
                  | some s' ↦ elim (join_accept s') [
                    | none ↦ none
                    | some idle ↦ elim (destroy_server back idle) [
                      | none ↦ none
                      | some end ↦ some (exit_with 0 end served)
                    ]
                  ]
                ]
                else elim (destroy_server back start.1) [
                  | none ↦ none
                  | some end ↦ some (exit_with 1 end m)
                ])
              ≡ some e)
            × Ends true o e
      go false back start started = absurd (false≢true back)
      go true back (true, s) (well, closes) =
          let (s', end, k, d, stopped, quiet) = signals_then_end o.signals s in
          (
            exit_with 0 end served,
            rw (k, quiet (inr some_come), d) refl,
            (
              ap (λ b. if b then 0 else 1) well,
              stopped.closed_all ∙ closes,
              exit_with-AllDestroyed 0 end served r' l',
            ),
          )
      go true back (false, s) (well, closes) =
          let (end, d, stopped) = destroy_server-returns s in
          (
            exit_with 1 end m,
            rw (d) refl,
            (
              ap (λ b. if b then 0 else 1) well,
              stopped.closed_all ∙ closes,
              exit_with-AllDestroyed 1 end m r l,
            ),
          )

  -- If at least one SIGINT or SIGTERM comes while the server runs, and the ten workers return for the
  -- destructor of their pool, the main program returns: it never waits for a connection in an empty
  -- pool nor deletes a thread that is joinable, whatever the database and the calls of Start do and
  -- however many further signals of these two come. Its code is 0 if the pool of ten connections is
  -- made and answers and Start succeeds, and 1 if not. At its end every connection to the database that
  -- was made, also by a pool that could not be filled, has been destroyed once, if the threads of the
  -- server give back what they borrow; the listening socket has been closed as `closings` says.
  pub main_program-exits :
      (serve : DbManager → DbManager)
      → Serves serve
      → 0 < o.signals
      → o.workers_return ≡ true
      → (success : Bool) × (m : DbManager) × (e : Exit) × (init_connection_pool 10 o.driver
            o.outcomes o.answers no_pool
          ≡ some (success, m))
        × (main_program o serve ≡ some e)
        × Ends success o e
  unfolding main_program
  main_program-exits serve serves some_come return =
      let (r, e) =
        init_connection_pool-returns 10 o.driver o.outcomes o.answers no_pool (omega arith) in
      let lent = (init_connection_pool-Grown 10 o.driver o.outcomes o.answers no_pool r e).lent in
      let reach = moves stays (initialises 10 o.driver o.outcomes o.answers e) in go r e lent reach
    where
      go :
          (r : Bool × DbManager)
          → init_connection_pool 10 o.driver o.outcomes o.answers no_pool ≡ some r
          → r.1.borrowed ≡ []
          → DbReach no_pool r.1
          → (success : Bool) × (m : DbManager) × (e : Exit) × (init_connection_pool 10 o.driver
                o.outcomes o.answers no_pool
              ≡ some (success, m))
            × (main_program o serve ≡ some e)
            × Ends success o e
      go (true, m) k lent reach =
          let (reach', lent') = serves m reach lent in
          let (e, runs, ends) =
            run_server-Ends m (serve m) reach lent reach' lent' some_come return in
          (true, m, e, k, rw (main_program, k) runs, ends)
      go (false, m) k lent reach = (
        false,
        m,
        exit_with 1 new_server m,
        k,
        rw (main_program, k) refl,
        (refl, refl, exit_with-AllDestroyed 1 new_server m reach lent),
      )
