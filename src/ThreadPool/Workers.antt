-- ===== src/ThreadPool/Workers.antt =====
-- The thread pool as a transition system: who submits, who works, who stops it, in any order.
use lite_chat_server.Common.{
  Bool, List, Option, [], ap, arith, count, count-snoc, false, if◌then◌else◌, length, none, refl,
  replicate, some, subst, suc, sym, true, zero, ℕ, ◌++◌, ◌+◌, ◌==◌, ◌∙◌, ◌∷◌, ◌≡◌, ◌≤◌, nat_eq,
  str_eq,
}
use lite_chat_server.ThreadPool.{
  ThreadPool, Worker, busy, complete_task, new_pool, put_worker, return_worker, returned, stop_pool,
  submit_task, take_front, take_task, waiting, work, worker_at,
}
use mathlib.Core.List.{append_assoc}

pub data PoolStep (p : ThreadPool) : ThreadPool → Type 0 where
  submits : (task : ℕ) → PoolStep p (submit_task task p)
  works : (i : ℕ) {q : ThreadPool} → work i p ≡ some q → PoolStep p q
  stops_pool : PoolStep p (stop_pool p)

pub data PoolReach (p : ThreadPool) : ThreadPool → Type 0 where
  start : PoolReach p p
  then_step : {q r : ThreadPool} → PoolReach p q → PoolStep q r → PoolReach p r

-- How many workers run a task.
abbrev pub runs : ℕ → Worker → ℕ
runs task waiting = 0
runs task (busy x) = if x == task then 1 else 0
runs task returned = 0

abbrev pub running : ℕ → List Worker → ℕ
running task [] = 0
running task (x ∷ workers) = runs task x + running task workers

abbrev pub is_busy : Worker → ℕ
is_busy waiting = 0
is_busy (busy x) = 1
is_busy returned = 0

abbrev pub busy_workers : List Worker → ℕ
busy_workers [] = 0
busy_workers (x ∷ workers) = is_busy x + busy_workers workers

-- With `n` workers: the tasks are taken in the order in which they were submitted, each taken task is
-- run by one worker or completed, once, and the counter counts the workers that run one.
pub record IsOrderly (n : ℕ) (p : ThreadPool) : Type 0 where
  pub in_order : p.taken ++ p.task_queue ≡ p.submitted
  pub once : (task : ℕ) → count task p.completed + running task p.workers ≡ count task p.taken
  pub active : p.active_threads ≡ busy_workers p.workers
  pub size : length p.workers ≡ n

length-put_worker :
    (i : ℕ) (x : Worker) (workers : List Worker) → length (put_worker i x workers) ≡ length workers
length-put_worker i x [] = ground arith
length-put_worker zero x (y ∷ workers) = refl
length-put_worker (suc i) x (y ∷ workers) = ap suc (length-put_worker i x workers)

running-put_worker :
    (task i : ℕ) (x y : Worker) (workers : List Worker)
    → worker_at i workers ≡ some y
    → running task (put_worker i x workers) + runs task y ≡ running task workers + runs task x
running-put_worker task i x y [] e = ground arith
running-put_worker task zero x y (z ∷ workers) e =
    let k : z ≡ y = cc e in omega (arith, ap (runs task) k)
running-put_worker task (suc i) x y (z ∷ workers) e =
    omega (arith, running-put_worker task i x y workers e)

busy-put_worker :
    (i : ℕ) (x y : Worker) (workers : List Worker)
    → worker_at i workers ≡ some y
    → busy_workers (put_worker i x workers) + is_busy y ≡ busy_workers workers + is_busy x
busy-put_worker i x y [] e = ground arith
busy-put_worker zero x y (z ∷ workers) e = let k : z ≡ y = cc e in omega (arith, ap is_busy k)
busy-put_worker (suc i) x y (z ∷ workers) e = omega (arith, busy-put_worker i x y workers e)

busy-le : (workers : List Worker) → busy_workers workers ≤ length workers
busy-le [] = omega arith
busy-le (waiting ∷ workers) = omega (arith, busy-le workers)
busy-le (busy x ∷ workers) = omega (arith, busy-le workers)
busy-le (returned ∷ workers) = omega (arith, busy-le workers)

new_pool-IsOrderly : (n : ℕ) → IsOrderly n (new_pool n)
unfolding new_pool
new_pool-IsOrderly n = record {
  in_order = refl;
  once = λ task. none_runs task n;
  active = none_busy n;
  size = length-replicate n;
}
  where
    none_runs : (task n : ℕ) → 0 + running task (replicate n waiting) ≡ 0
    none_runs task zero = omega arith
    none_runs task (suc n) = omega (arith, none_runs task n)

    none_busy : (n : ℕ) → 0 ≡ busy_workers (replicate n waiting)
    none_busy zero = omega arith
    none_busy (suc n) = omega (arith, none_busy n)

    length-replicate : (n : ℕ) → length (replicate n waiting) ≡ n
    length-replicate zero = refl
    length-replicate (suc n) = ap suc (length-replicate n)

module _ (n : ℕ) (p : ThreadPool) (o : IsOrderly n p) where
  submit_task-IsOrderly : (task : ℕ) → IsOrderly n (submit_task task p)
  unfolding submit_task
  submit_task-IsOrderly task = record {
    in_order =
        sym (append_assoc p.taken p.task_queue (task ∷ [])) ∙ ap (λ l. l ++ task ∷ []) o.in_order;
    once = o.once;
    active = o.active;
    size = o.size;
  }

  stop_pool-IsOrderly : IsOrderly n (stop_pool p)
  unfolding stop_pool
  stop_pool-IsOrderly = record {
    in_order = o.in_order;
    once = o.once;
    active = o.active;
    size = o.size;
  }

  -- A waiting worker takes the first task.
  take_front-IsOrderly :
      (i task : ℕ) (rest : List ℕ)
      → worker_at i p.workers ≡ some waiting
      → p.task_queue ≡ task ∷ rest
      → IsOrderly n (take_front i task rest p)
  take_front-IsOrderly i task rest w e = record {
    in_order = append_assoc p.taken (task ∷ []) rest ∙ ap (λ l. p.taken ++ l) (sym e) ∙ o.in_order;
    once = λ t. omega (
      arith,
      o.once t,
      running-put_worker t i (busy task) waiting p.workers w,
      count-snoc t task p.taken,
    );
    active = omega (arith, o.active, busy-put_worker i (busy task) waiting p.workers w);
    size = length-put_worker i (busy task) p.workers ∙ o.size;
  }

  return_worker-IsOrderly :
      (i : ℕ) → worker_at i p.workers ≡ some waiting → IsOrderly n (return_worker i p)
  return_worker-IsOrderly i w = record {
    in_order = o.in_order;
    once = λ t. omega (arith, o.once t, running-put_worker t i returned waiting p.workers w);
    active = omega (arith, o.active, busy-put_worker i returned waiting p.workers w);
    size = length-put_worker i returned p.workers ∙ o.size;
  }

  complete_task-IsOrderly :
      (i task : ℕ) → worker_at i p.workers ≡ some (busy task) → IsOrderly n (complete_task i task p)
  unfolding complete_task
  complete_task-IsOrderly i task w = record {
    in_order = o.in_order;
    once = λ t. omega (
      arith,
      o.once t,
      running-put_worker t i waiting (busy task) p.workers w,
      count-snoc t task p.completed,
    );
    active = omega (arith, o.active, busy-put_worker i waiting (busy task) p.workers w);
    size = length-put_worker i waiting p.workers ∙ o.size;
  }

  work-IsOrderly : (i : ℕ) (q : ThreadPool) → work i p ≡ some q → IsOrderly n q
  unfolding work take_task
  work-IsOrderly i q e = at_work (worker_at i p.workers) refl e
    where
      waits :
          (stopping : Bool) (queue : List ℕ)
          → worker_at i p.workers ≡ some waiting
          → p.task_queue ≡ queue
          → elim queue as (λ _. Option ThreadPool) [
            | [] ↦ if stopping then some (return_worker i p) else none
            | task ∷ rest ↦ some (take_front i task rest p)
          ]
            ≡ some q
          → IsOrderly n q
      waits true [] w k e = subst (IsOrderly n) (cc e) (return_worker-IsOrderly i w)
      waits false [] w k e = absurd (cc e)
      waits stopping (task ∷ rest) w k e =
          subst (IsOrderly n) (cc e) (take_front-IsOrderly i task rest w k)

      at_work :
          (found : Option Worker)
          → worker_at i p.workers ≡ found
          → elim found as (λ _. Option ThreadPool) [
            | none ↦ none
            | some worker ↦ elim worker as (λ _. Option ThreadPool) [
              | waiting ↦ take_task i p
              | busy task ↦ some (complete_task i task p)
              | returned ↦ none
            ]
          ]
            ≡ some q
          → IsOrderly n q
      at_work none w e = absurd (cc e)
      at_work (some waiting) w e = waits p.stop p.task_queue w refl e
      at_work (some (busy task)) w e = subst (IsOrderly n) (cc e) (complete_task-IsOrderly i task w)
      at_work (some returned) w e = absurd (cc e)

PoolStep-IsOrderly : (n : ℕ) {p q : ThreadPool} → PoolStep p q → IsOrderly n p → IsOrderly n q
PoolStep-IsOrderly n {p} (submits task) o = submit_task-IsOrderly n p o task
PoolStep-IsOrderly n {p} (works i {q} e) o = work-IsOrderly n p o i q e
PoolStep-IsOrderly n {p} stops_pool o = stop_pool-IsOrderly n p o

PoolReach-IsOrderly : (n : ℕ) {p q : ThreadPool} → PoolReach p q → IsOrderly n p → IsOrderly n q
PoolReach-IsOrderly n start o = o
PoolReach-IsOrderly n (then_step r s) o = PoolStep-IsOrderly n s (PoolReach-IsOrderly n r o)

-- In every state that a pool of `n` workers reaches, however submissions, workers and the stop
-- interleave: the tasks are taken in the order in which they were submitted, a taken task is as often
-- run by a worker or completed as it was taken, `active_threads` is the number of workers that run a
-- task, and it is at most `n`.
pub pool-IsOrderly :
    (n : ℕ) (p : ThreadPool) → PoolReach (new_pool n) p → IsOrderly n p × (p.active_threads ≤ n)
pool-IsOrderly n p r =
    let o = PoolReach-IsOrderly n r (new_pool-IsOrderly n) in
    (o, omega (arith, o.active, o.size, busy-le p.workers))
