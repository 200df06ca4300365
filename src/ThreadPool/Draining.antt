-- ===== src/ThreadPool/Draining.antt =====
-- ~ThreadPool: what the workers do once the pool is stopped.
use mathlib.Core.List.{append-nil}
use lite_chat_server.Common.{
  All, List, [], ap, arith, count, false, length, inl, inr, false≢true, refl, replicate, some,
  subst, suc, sym, true, zero, ℕ, ◌++◌, ◌<◌, ◌∙◌, ◌∷◌, ◌≡◌, ◌≢◌, ◌⊎◌, nat_eq,
}
use lite_chat_server.ThreadPool.{
  ThreadPool, Worker, busy, complete_task, new_pool, put_worker, returned, stop_pool, submit_task,
  waiting, worker_at,
}
use lite_chat_server.ThreadPool.Workers.{
  PoolReach, pool-IsOrderly, running, runs, start, stops_pool, submits, then_step, works,
}
use lite_chat_server.ThreadPool.Moves.{
  Move, Working, at_rest, completes, goes, moved, takes, work_inv,
}

worker_at-put_worker :
    (i j : ℕ) (x y : Worker) (workers : List Worker)
    → worker_at j (put_worker i x workers) ≡ some y
    → (x ≡ y) ⊎ (worker_at j workers ≡ some y)
worker_at-put_worker i j x y [] e = absurd (ground (arith, e))
worker_at-put_worker zero zero x y (z ∷ workers) e = inl (cc e)
worker_at-put_worker zero (suc j) x y (z ∷ workers) e = inr e
worker_at-put_worker (suc i) zero x y (z ∷ workers) e = inr e
worker_at-put_worker (suc i) (suc j) x y (z ∷ workers) e = worker_at-put_worker i j x y workers e

abbrev NoneReturned : ThreadPool → Type 0
NoneReturned p = (i : ℕ) → worker_at i p.workers ≢ some returned

new_pool-NoneReturned : (n : ℕ) → NoneReturned (new_pool n)
unfolding new_pool
new_pool-NoneReturned n i = all_wait n i
  where
    all_wait : (n i : ℕ) → worker_at i (replicate n waiting) ≢ some returned
    all_wait zero i e = cc e
    all_wait (suc n) zero e = cc e
    all_wait (suc n) (suc i) e = all_wait n i e

-- No worker returns before the stop.
Move-NoneReturned :
    (i : ℕ) (p q : ThreadPool)
    → Move i p q
    → q.stop ≡ false
    → (p.stop ≡ false → NoneReturned p)
    → NoneReturned q
unfolding complete_task
Move-NoneReturned i p q (takes task rest w k e) on before j gone =
    elim (worker_at-put_worker i j (busy task) returned p.workers
      (ap (λ (r : ThreadPool). worker_at j r.workers) (sym e) ∙ gone)) [
        | inl same ↦ cc same
        | inr there ↦ before (ap (λ (r : ThreadPool). r.stop) (sym e) ∙ on) j there
      ]
Move-NoneReturned i p q (goes w k s e) on before j gone =
    absurd (false≢true (sym on ∙ ap (λ (r : ThreadPool). r.stop) e ∙ s))
Move-NoneReturned i p q (completes task w e) on before j gone =
    elim (worker_at-put_worker i j waiting returned p.workers
      (ap (λ (r : ThreadPool). worker_at j r.workers) (sym e) ∙ gone)) [
        | inl same ↦ cc same
        | inr there ↦ before (ap (λ (r : ThreadPool). r.stop) (sym e) ∙ on) j there
      ]

PoolReach-NoneReturned :
    (n : ℕ) (p : ThreadPool) → PoolReach (new_pool n) p → p.stop ≡ false → NoneReturned p
unfolding submit_task stop_pool
PoolReach-NoneReturned n p start on = new_pool-NoneReturned n
PoolReach-NoneReturned n p (then_step {q = v} r (submits task)) on = PoolReach-NoneReturned n v r on
PoolReach-NoneReturned n p (then_step {q = v} r (works i e)) on =
    Move-NoneReturned i v p (work_inv i v p e) on (PoolReach-NoneReturned n v r)
PoolReach-NoneReturned n p (then_step {q = v} r stops_pool) on = absurd (false≢true (sym on))

-- Behind the stop, with no submission any more: a worker that has returned has seen an empty queue.
record IsStopping (submitted : List ℕ) (p : ThreadPool) : Type 0 where
  stopped : p.stop ≡ true
  same : p.submitted ≡ submitted
  late : (i : ℕ) → worker_at i p.workers ≡ some returned → p.task_queue ≡ []

Move-IsStopping :
    (submitted : List ℕ) (i : ℕ) (p q : ThreadPool)
    → Move i p q
    → IsStopping submitted p
    → IsStopping submitted q
unfolding complete_task
Move-IsStopping submitted i p q (takes task rest w k e) s =
    subst (IsStopping submitted) (sym e) (record {
      stopped = s.stopped;
      same = s.same;
      late = λ j gone. elim (worker_at-put_worker i j (busy task) returned p.workers gone) [
        | inl other ↦ absurd (cc other)
        | inr there ↦ absurd (cc (s.late j there, k))
      ];
    })
Move-IsStopping submitted i p q (goes w k t e) s =
    subst (IsStopping submitted) (sym e)
      (record { stopped = s.stopped; same = s.same; late = λ j gone. k })
Move-IsStopping submitted i p q (completes task w e) s =
    subst (IsStopping submitted) (sym e) (record {
      stopped = s.stopped;
      same = s.same;
      late = λ j gone. elim (worker_at-put_worker i j waiting returned p.workers gone) [
        | inl other ↦ absurd (cc other)
        | inr there ↦ s.late j there
      ];
    })

Working-IsStopping :
    (submitted : List ℕ) (p q : ThreadPool) (k : ℕ)
    → Working p k q
    → IsStopping submitted p
    → IsStopping submitted q
Working-IsStopping submitted p q zero at_rest s = s
Working-IsStopping submitted p q (suc k) (moved {q = v} r i e) s =
    Move-IsStopping submitted i v q (work_inv i v q e) (Working-IsStopping submitted p v k r s)

Working-Reach : (p q r : ThreadPool) (k : ℕ) → PoolReach p q → Working q k r → PoolReach p r
Working-Reach p q r zero reach at_rest = reach
Working-Reach p q r (suc k) reach (moved {q = v} w i e) =
    then_step (Working-Reach p q v k reach w) (works i e)

first_returned :
    (workers : List Worker)
    → 0 < length workers
    → All (λ x. x ≡ returned) workers
    → worker_at 0 workers ≡ some returned
first_returned [] h a = absurd (omega (arith, h))
first_returned (x ∷ workers) h (r, a) = ap some r

none_running :
    (task : ℕ) (workers : List Worker) → All (λ x. x ≡ returned) workers → running task workers ≡ 0
none_running task [] a = refl
none_running task (x ∷ workers) (r, a) =
    omega (arith, none_running task workers a, ap (runs task) r)

-- If a pool with at least one worker is stopped, no task is submitted from then on, and all its workers
-- have returned after whatever moves they made, then no task is lost: the queue is empty, and every
-- task that was ever submitted has been completed, as often as it was submitted.
pub stopped_pool_drained :
    (n : ℕ) (p q : ThreadPool) (k : ℕ)
    → PoolReach (new_pool n) p
    → p.stop ≡ false
    → 0 < n
    → Working (stop_pool p) k q
    → All (λ x. x ≡ returned) q.workers
    → (q.task_queue ≡ []) × ((task : ℕ) → count task q.completed ≡ count task p.submitted)
unfolding stop_pool
stopped_pool_drained n p q k reach on positive w gone =
    let s : IsStopping p.submitted q = Working-IsStopping p.submitted (stop_pool p) q k w (record {
      stopped = refl;
      same = refl;
      late = λ i e. absurd (PoolReach-NoneReturned n p reach on i e);
    }) in
    let (o, _) =
      pool-IsOrderly n q
        (Working-Reach (new_pool n) (stop_pool p) q k (then_step reach stops_pool) w) in
    let empty : q.task_queue ≡ [] =
      s.late 0 (first_returned q.workers (omega (arith, positive, o.size)) gone) in
    let all_taken : q.taken ≡ p.submitted =
      sym (append-nil q.taken) ∙ ap (λ l. q.taken ++ l) (sym empty) ∙ o.in_order ∙ s.same in
    (
      empty,
      λ task.
          omega (arith, o.once task, none_running task q.workers gone, ap (count task) all_taken),
    )
