-- ===== src/Ingestion/ThreadPool.antt =====
-- ingestion/include/ingestion/thread_pool.h and ingestion/src/thread_pool.cpp. What a thread does
-- while it holds the mutex is one step; the threads' steps come in any order. A task is any value.
pub mod Workers
pub mod Drain
use forge_sight.Prelude.{
  ◌≡◌, ℕ, zero, suc, ◌==◌, Bool, true, false, not, ◌&&◌, ◌||◌, Option, none, some, List, [], ◌∷◌,
  ◌++◌, is_empty, if◌then◌else◌,
}

pub record ThreadPool (A : Type 0) : Type 0 where
  pub stopped : Bool
  pub tasks : List A

-- A worker waits for the condition variable, runs a task, or has left its loop.
pub data Worker (A : Type 0) : Type 0 where
  waiting : Worker A
  running : A → Worker A
  exited : Worker A

-- The pool and its threads. The tasks that `submit` accepted, that a worker started and that it
-- finished are kept in order.
pub record Threads (A : Type 0) : Type 0 where
  pub pool : ThreadPool A
  pub workers : List (Worker A)
  pub accepted : List A
  pub started : List A
  pub finished : List A

module _ {A : Type 0} where
  abbrev pub repeat_waiting : ℕ → List (Worker A)
  repeat_waiting zero = []
  repeat_waiting (suc n) = waiting ∷ repeat_waiting n

  -- The constructor.
  abbrev pub thread_pool : ℕ → Threads A
  thread_pool n = record {
    pool = record { stopped = n == 0; tasks = [] };
    workers = repeat_waiting n;
    accepted = [];
    started = [];
    finished = [];
  }

  -- `none` is the exception "submit on shutdown pool".
  unfoldable pub submit : A → ThreadPool A → Option (ThreadPool A)
  submit task p = if p.stopped then none else some (record p { tasks = p.tasks ++ (task ∷ []) })

  unfoldable pub shutdown : ThreadPool A → ThreadPool A
  shutdown p = if p.stopped then p else record p { stopped = true }

  -- A worker that holds the mutex in `worker_loop`: what becomes of it and of the pool, or `none`
  -- while it is to wait.
  unfoldable pub wake : ThreadPool A → Option (Worker A × ThreadPool A)
  wake p = elim p.tasks [
    | [] ↦ if p.stopped then some (exited, p) else none
    | task ∷ tasks ↦ some (running task, record p { tasks = tasks })
  ]

pub data Step {A : Type 0} : Threads A → Threads A → Type 0 where
  submits :
      (s : Threads A) (task : A) (p : ThreadPool A)
      → submit task s.pool ≡ some p
      → Step s (record s { pool = p; accepted = s.accepted ++ (task ∷ []) })
  rejects : (s : Threads A) (task : A) → submit task s.pool ≡ none → Step s s
  shuts_down : (s : Threads A) → Step s (record s { pool = shutdown s.pool })
  starts :
      (s : Threads A) (before after : List (Worker A)) (task : A) (p : ThreadPool A)
      → s.workers ≡ before ++ (waiting ∷ after)
      → wake s.pool ≡ some (running task, p)
      → Step s (record s {
        pool = p;
        workers = before ++ (running task ∷ after);
        started = s.started ++ (task ∷ []);
      })
  exits :
      (s : Threads A) (before after : List (Worker A)) (p : ThreadPool A)
      → s.workers ≡ before ++ (waiting ∷ after)
      → wake s.pool ≡ some (exited, p)
      → Step s (record s { pool = p; workers = before ++ (exited ∷ after) })
  finishes :
      (s : Threads A) (before after : List (Worker A)) (task : A)
      → s.workers ≡ before ++ (running task ∷ after)
      → Step s
          (record s { workers = before ++ (waiting ∷ after); finished = s.finished ++ (task ∷ []) })

-- Any number of steps.
pub data Steps {A : Type 0} : Threads A → Threads A → Type 0 where
  stay : (s : Threads A) → Steps s s
  also : {s t u : Threads A} → Steps s t → Step t u → Steps s u
