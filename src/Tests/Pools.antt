-- ===== src/Tests/Pools.antt =====
-- Runs of the two pools, and their theorems at concrete inputs.
use lite_chat_server.Common.{
  Bool, [], arith, false, refl, some, true, ◌+◌, ◌∷◌, ◌≡◌, ◌≤◌, nat_eq, str_eq, count, length, ℕ,
  ◌*◌,
}
use lite_chat_server.ThreadPool.{
  ThreadPool, new_pool, submit_task, take_front, take_task, work, returned, stop_pool,
  complete_task,
}
use lite_chat_server.ThreadPool.Workers.{
  IsOrderly, PoolReach, pool-IsOrderly, start, submits, then_step, works,
}
use lite_chat_server.DbManager.{
  Attempt, DbManager, create_each, fill_pool, get_connection, init_connection_pool, no_pool,
  reconnect, release_connection, try_each, validate_connection,
}
use lite_chat_server.DbManager.Growth.{reconnect-grows}
use lite_chat_server.DbManager.Sharing.{
  DbReach, IsShared, borrows, connections-IsShared, initialises, moves, no_pool-IsShared, stays,
}
use lite_chat_server.ThreadPool.Moves.{Working, at_rest, moved}
use lite_chat_server.ThreadPool.Draining.{stopped_pool_drained}
use lite_chat_server.DbManager.Bag.{ViewRun, calls_of, view}
use lite_chat_server.DbManager.Refinement.{pool_refines_bag}
use lite_chat_server.ExceptionHandler.{Round, handle_db_exception}
use lite_chat_server.ExceptionHandler.Reconnecting.{handle_db_exception-bounded}

-- Two workers: one takes the first of two tasks.
abbrev two_tasks : ThreadPool
two_tasks = submit_task 8 (submit_task 7 (new_pool 2))

abbrev pub one_taken : ThreadPool
one_taken = take_front 0 7 (8 ∷ []) two_tasks

pub one_taken-Reach : PoolReach (new_pool 2) one_taken
unfolding work take_task submit_task new_pool
one_taken-Reach = then_step (then_step (then_step start (submits 7)) (submits 8)) (works 0 refl)

pool-IsOrderly_example : IsOrderly 2 one_taken × (one_taken.active_threads ≤ 2)
pool-IsOrderly_example = pool-IsOrderly 2 one_taken one_taken-Reach

-- A pool of two connections, one of which is handed out.
abbrev pub filled : DbManager
filled = record { connection_pool = 1 ∷ 0 ∷ []; pool_size = 2; borrowed = []; created = 2 }

abbrev lent_out : DbManager
lent_out = record { connection_pool = 0 ∷ []; pool_size = 2; borrowed = 1 ∷ []; created = 2 }

lent_out-Reach : DbReach no_pool lent_out
unfolding init_connection_pool fill_pool create_each validate_connection get_connection
    release_connection
lent_out-Reach =
    moves (moves stays (initialises 2 true [] true {ok = true} {m' = filled} refl)) (borrows 1 refl)

connections-IsShared_example : IsShared lent_out
connections-IsShared_example = connections-IsShared lent_out lent_out-Reach

-- The same pool after a reconnection at the first attempt.
abbrev successful : Attempt
successful = record { driver = true; outcomes = []; answers = true }

abbrev reconnected : DbManager
reconnected = record {
  connection_pool = 0 ∷ 2 ∷ 3 ∷ 1 ∷ [];
  pool_size = 2;
  borrowed = [];
  created = 4;
}

reconnect-grows_example :
    (filled.created + filled.pool_size ≤ reconnected.created)
    × ((c : ℕ) → count c filled.connection_pool ≤ count c reconnected.connection_pool)
    × (length filled.connection_pool + filled.pool_size ≤ length reconnected.connection_pool)
unfolding reconnect try_each init_connection_pool fill_pool create_each validate_connection
    get_connection release_connection
reconnect-grows_example = reconnect-grows successful successful successful filled reconnected refl

pool_refines_bag_example : ViewRun (view no_pool) (calls_of lent_out-Reach) (view lent_out)
pool_refines_bag_example = pool_refines_bag no_pool lent_out no_pool-IsShared lent_out-Reach

-- MySQL is away for the first round.
abbrev unlucky : Attempt
unlucky = record { driver = true; outcomes = false ∷ []; answers = false }

abbrev lost_round : Round
lost_round = record { first = unlucky; second = unlucky; third = unlucky }

abbrev good_round : Round
good_round = record { first = successful; second = successful; third = successful }

handle_db_exception-bounded_example :
    (reconnected : Bool) × (m' : DbManager) × (handle_db_exception lost_round good_round good_round
        (some filled)
      ≡ some (reconnected, some m'))
    × (m'.pool_size ≡ filled.pool_size)
    × ((c : ℕ) → count c filled.connection_pool ≤ count c m'.connection_pool)
    × (filled.created ≤ m'.created)
    × (m'.created ≤ filled.created + 9 * filled.pool_size)
handle_db_exception-bounded_example =
    handle_db_exception-bounded lost_round good_round good_round filled (omega arith)

-- One worker and one task: the worker takes it, completes it, and returns.
abbrev one_task : ThreadPool
one_task = submit_task 7 (new_pool 1)

abbrev emptied : ThreadPool
emptied = record {
  workers = returned ∷ [];
  task_queue = [];
  stop = true;
  active_threads = 0;
  submitted = 7 ∷ [];
  taken = 7 ∷ [];
  completed = 7 ∷ [];
}

three_moves : Working (stop_pool one_task) 3 emptied
unfolding work take_task submit_task new_pool stop_pool complete_task
three_moves = moved (moved (moved at_rest 0 refl) 0 refl) 0 refl

stopped_pool_drained_example :
    (emptied.task_queue ≡ [])
    × ((task : ℕ) → count task emptied.completed ≡ count task one_task.submitted)
unfolding submit_task new_pool
stopped_pool_drained_example =
    stopped_pool_drained 1 one_task emptied 3 (then_step start (submits 7)) refl (omega arith)
      three_moves (refl, tt)
