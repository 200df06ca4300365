-- ===== src/ThreadPool/Moves.antt =====
-- The moves of the workers.
use lite_chat_server.Common.{
  Bool, List, Option, [], false, if◌then◌else◌, none, refl, some, suc, sym, true, ℕ, ◌∷◌, ◌≡◌,
  nat_eq,
}
use lite_chat_server.ThreadPool.{
  ThreadPool, Worker, busy, complete_task, return_worker, returned, take_front, take_task, waiting,
  work, worker_at,
}

-- What a worker that moves has done.
pub data Move (i : ℕ) (p q : ThreadPool) : Type 0 where
  takes :
      (task : ℕ) (rest : List ℕ)
      → worker_at i p.workers ≡ some waiting
      → p.task_queue ≡ task ∷ rest
      → q ≡ take_front i task rest p
      → Move i p q
  goes :
      worker_at i p.workers ≡ some waiting
      → p.task_queue ≡ []
      → p.stop ≡ true
      → q ≡ return_worker i p
      → Move i p q
  completes :
      (task : ℕ)
      → worker_at i p.workers ≡ some (busy task)
      → q ≡ complete_task i task p
      → Move i p q

pub work_inv : (i : ℕ) (p q : ThreadPool) → work i p ≡ some q → Move i p q
unfolding work take_task
work_inv i p q e = at_work (worker_at i p.workers) refl e
  where
    waits :
        (stopping : Bool) (queue : List ℕ)
        → worker_at i p.workers ≡ some waiting
        → p.task_queue ≡ queue
        → p.stop ≡ stopping
        → elim queue as (λ _. Option ThreadPool) [
          | [] ↦ if stopping then some (return_worker i p) else none
          | task ∷ rest ↦ some (take_front i task rest p)
        ]
          ≡ some q
        → Move i p q
    waits true [] w k s e = goes w k s (sym (cc e))
    waits false [] w k s e = absurd (cc e)
    waits stopping (task ∷ rest) w k s e = takes task rest w k (sym (cc e))

    at_work :
        (found : Option Worker)
        → worker_at i p.workers ≡ found
        → elim found as (λ _. Option ThreadPool) [
          | none ↦ none
          | some worker ↦ elim worker as (λ _. Option ThreadPool) [
            | waiting ↦ take_task i p
            | busy task ↦ some (complete_task i task p)
            | returned ↦ none
          ]
        ]
          ≡ some q
        → Move i p q
    at_work none w e = absurd (cc e)
    at_work (some waiting) w e = waits p.stop p.task_queue w refl refl e
    at_work (some (busy task)) w e = completes task w (sym (cc e))
    at_work (some returned) w e = absurd (cc e)

-- The workers alone: a number of moves, one after the other.
pub data Working (p : ThreadPool) : ℕ → ThreadPool → Type 0 where
  at_rest : Working p 0 p
  moved :
      {k : ℕ} {q r : ThreadPool} → Working p k q → (i : ℕ) → work i q ≡ some r → Working p (suc k) r
