-- ===== src/ThreadPool.antt =====
-- system/thread_pool.cpp: the queue of tasks and the workers. A task is a number; what the tasks do
-- is the business of Server.
pub mod Workers
pub mod Moves
pub mod Draining
use lite_chat_server.Common.{
  Bool, List, Option, [], false, if◌then◌else◌, length, nat_eq, none, replicate, some, suc, true,
  zero, ℕ, ◌++◌, ◌+◌, ◌-◌, ◌==◌, ◌∷◌,
}

-- What a worker does: it waits on the condition variable, runs a task, or has returned.
pub data Worker : Type 0 where
  waiting : Worker
  busy : ℕ → Worker
  returned : Worker

pub record ThreadPool : Type 0 where
  pub workers : List Worker
  pub task_queue : List ℕ
  pub stop : Bool
  pub active_threads : ℕ
  -- What has happened: the tasks that were submitted, taken and completed, in order.
  pub submitted : List ℕ
  pub taken : List ℕ
  pub completed : List ℕ

-- ThreadPool(threadCount)
unfoldable pub new_pool : ℕ → ThreadPool
new_pool thread_count = record {
  workers = replicate thread_count waiting;
  task_queue = [];
  stop = false;
  active_threads = 0;
  submitted = [];
  taken = [];
  completed = [];
}

unfoldable pub submit_task : ℕ → ThreadPool → ThreadPool
submit_task task pool = record pool {
  task_queue = pool.task_queue ++ task ∷ [];
  submitted = pool.submitted ++ task ∷ [];
}

-- The first half of ~ThreadPool; the second waits for the workers.
unfoldable pub stop_pool : ThreadPool → ThreadPool
stop_pool pool = record pool { stop = true }

-- The worker at a position, and the pool with another one there.
abbrev pub worker_at : ℕ → List Worker → Option Worker
worker_at i [] = none
worker_at zero (x ∷ workers) = some x
worker_at (suc i) (x ∷ workers) = worker_at i workers

abbrev pub put_worker : ℕ → Worker → List Worker → List Worker
put_worker i worker [] = []
put_worker zero worker (x ∷ workers) = worker ∷ workers
put_worker (suc i) worker (x ∷ workers) = x ∷ put_worker i worker workers

-- task = front(); pop(); activeThreads++
abbrev pub take_front : ℕ → ℕ → List ℕ → ThreadPool → ThreadPool
take_front i task rest pool = record pool {
  workers = put_worker i (busy task) pool.workers;
  task_queue = rest;
  active_threads = pool.active_threads + 1;
  taken = pool.taken ++ task ∷ [];
}

abbrev pub return_worker : ℕ → ThreadPool → ThreadPool
return_worker i pool = record pool { workers = put_worker i returned pool.workers }

-- The locked part of the loop of WorkerThread: `none` while the condition does not hold.
unfoldable pub take_task : ℕ → ThreadPool → Option ThreadPool
take_task i pool = elim pool.task_queue [
  | [] ↦ if pool.stop then some (return_worker i pool) else none
  | task ∷ rest ↦ some (take_front i task rest pool)
]

-- task() has returned: activeThreads--
unfoldable pub complete_task : ℕ → ℕ → ThreadPool → ThreadPool
complete_task i task pool = record pool {
  workers = put_worker i waiting pool.workers;
  active_threads = pool.active_threads - 1;
  completed = pool.completed ++ task ∷ [];
}

-- What the worker at a position can do next. A waiting worker may go on whenever its condition holds:
-- that the destructor's notify_all() can be missed, and the wait then lasts for ever, is not modelled.
unfoldable pub work : ℕ → ThreadPool → Option ThreadPool
work i pool = elim (worker_at i pool.workers) [
  | none ↦ none
  | some worker ↦ elim worker [
    | waiting ↦ take_task i pool
    | busy task ↦ some (complete_task i task pool)
    | returned ↦ none
  ]
]

-- GetThreadPoolUsage: a quotient of numbers, as numerator and denominator. threadCount is the number
-- of workers.
unfoldable pub get_thread_pool_usage : ThreadPool → ℕ × ℕ
get_thread_pool_usage pool =
    if length pool.workers == 0 then (0, 1) else (pool.active_threads, length pool.workers)
