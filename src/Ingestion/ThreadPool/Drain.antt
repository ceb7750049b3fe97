-- ===== src/Ingestion/ThreadPool/Drain.antt =====
-- Accepted tasks start in order, each once, and none is left behind by a shutdown.
use forge_sight.Prelude.{
  ◌≡◌, ◌≤◌, refl, sym, ap, ◌∙◌, ℕ, suc, ◌+◌, true, false, some, List, [], ◌∷◌, ◌++◌, append_assoc,
  append-nil, length, arith,
}
use forge_sight.Ingestion.ThreadPool.{
  ThreadPool, waiting, running, exited, Threads, thread_pool, submit, shutdown, wake, Step, submits,
  rejects, shuts_down, starts, exits, finishes, Steps, stay, also,
}
use forge_sight.Ingestion.ThreadPool.Workers.{
  any_exited, all_exited, busy_count, busy_count-append, length-insert, length-snoc, kept_exits,
  all_idle, any_of_all, repeat_waiting-quiet,
}

module _ {A : Type 0} where
  record IsSound (s : Threads A) : Type 0 where
    in_order : s.started ++ s.pool.tasks ≡ s.accepted
    drained : any_exited s.workers ≡ true → (s.pool.stopped ≡ true) × (s.pool.tasks ≡ [])
    counted : length s.started ≡ length s.finished + busy_count s.workers
    staffed : 1 ≤ length s.workers

  pub submit_lem :
      (task : A) (p q : ThreadPool A)
      → submit task p ≡ some q
      → (p.stopped ≡ false) × (q.stopped ≡ false) × (q.tasks ≡ p.tasks ++ (task ∷ []))
  unfolding submit
  submit_lem task p q e = ground arith

  pub wake_starts :
      (p q : ThreadPool A) (task : A)
      → wake p ≡ some (running task, q)
      → (q.stopped ≡ p.stopped) × (p.tasks ≡ task ∷ q.tasks)
  unfolding wake
  wake_starts p q task e = ground arith

  wake_exits :
      (p q : ThreadPool A)
      → wake p ≡ some (exited, q)
      → (q ≡ p) × (p.stopped ≡ true) × (p.tasks ≡ [])
  unfolding wake
  wake_exits p q e = ground arith

  pub shutdown_tasks : (p : ThreadPool A) → (shutdown p).tasks ≡ p.tasks
  unfolding shutdown
  shutdown_tasks p = ground arith

  shutdown_stopped : (p : ThreadPool A) → (shutdown p).stopped ≡ true
  unfolding shutdown
  shutdown_stopped p = ground arith

  Step-IsSound : (s t : Threads A) → Step s t → IsSound s → IsSound t
  Step-IsSound _ _ (submits s task p e) h = record {
    in_order =
        let (was, now, added) = submit_lem task s.pool p e in
        ap (◌++◌ s.started) added
        ∙ sym (append_assoc s.started s.pool.tasks (task ∷ []))
        ∙ ap (λ (l : List A). l ++ (task ∷ [])) h.in_order;
    drained = λ x. let (was, now, added) = submit_lem task s.pool p e in let d = h.drained x in cc;
    counted = h.counted;
    staffed = h.staffed;
  }
  Step-IsSound _ _ (rejects s task e) h = h
  Step-IsSound _ _ (shuts_down s) h = record {
    in_order = ap (◌++◌ s.started) (shutdown_tasks s.pool) ∙ h.in_order;
    drained = λ x. (shutdown_stopped s.pool, shutdown_tasks s.pool ∙ (h.drained x).1);
    counted = h.counted;
    staffed = h.staffed;
  }
  Step-IsSound _ _ (starts s before after task p e k) h = record {
    in_order =
        let (same, popped) = wake_starts s.pool p task k in
        append_assoc s.started (task ∷ []) p.tasks ∙ ap (◌++◌ s.started) (sym popped) ∙ h.in_order;
    drained = λ x.
        let (same, popped) = wake_starts s.pool p task k in
        let d = h.drained (kept_exits s.workers before after waiting (running task) e refl x) in cc;
    counted = omega (
      arith,
      length-snoc s.started task,
      h.counted,
      ap busy_count e,
      busy_count-append before waiting after,
      busy_count-append before (running task) after,
    );
    staffed = omega (arith, length-insert before (running task) after);
  }
  Step-IsSound _ _ (exits s before after p e k) h = record {
    in_order =
        ap (λ (q : ThreadPool A). s.started ++ q.tasks) (wake_exits s.pool p k).0 ∙ h.in_order;
    drained = λ x.
        let (same, stopped, empty) = wake_exits s.pool p k in
        (
          ap (λ (q : ThreadPool A). q.stopped) same ∙ stopped,
          ap (λ (q : ThreadPool A). q.tasks) same ∙ empty,
        );
    counted = omega (
      arith,
      h.counted,
      ap busy_count e,
      busy_count-append before waiting after,
      busy_count-append before exited after,
    );
    staffed = omega (arith, length-insert before exited after);
  }
  Step-IsSound _ _ (finishes s before after task e) h = record {
    in_order = h.in_order;
    drained = λ x. h.drained (kept_exits s.workers before after (running task) waiting e refl x);
    counted = omega (
      arith,
      length-snoc s.finished task,
      h.counted,
      ap busy_count e,
      busy_count-append before (running task) after,
      busy_count-append before waiting after,
    );
    staffed = omega (arith, length-insert before waiting after);
  }

  Steps-IsSound : (s t : Threads A) → Steps s t → IsSound s → IsSound t
  Steps-IsSound _ _ (stay s) h = h
  Steps-IsSound _ _ (also {s} {t} {u} first last) h =
      Step-IsSound t u last (Steps-IsSound s t first h)

thread_pool-IsSound : (A : Type 0) (n : ℕ) → IsSound (thread_pool {A = A} (suc n))
thread_pool-IsSound A n =
    let (quiet, idle) = repeat_waiting-quiet A (suc n) in
    record {
      in_order = refl;
      drained = λ x. cc;
      counted = omega (arith, idle);
      staffed = omega arith;
    }

module _ {A : Type 0} where
  -- The tasks that workers started, followed by those that wait, are the accepted tasks in the order
  -- in which they were accepted, at every moment of a pool of at least one thread, whatever the order
  -- of the threads' steps.
  pub started_in_order :
      (n : ℕ) (s : Threads A)
      → Steps (thread_pool (suc n)) s
      → s.started ++ s.pool.tasks ≡ s.accepted
  started_in_order n s steps = (Steps-IsSound _ s steps (thread_pool-IsSound A n)).in_order

  -- When all workers of a pool of at least one thread have left, the pool is shut down, every task
  -- that was accepted was started, in order, and as many tasks were finished: none is lost.
  pub exits_drained :
      (n : ℕ) (s : Threads A)
      → Steps (thread_pool (suc n)) s
      → all_exited s.workers ≡ true
      → (s.pool.stopped ≡ true) × (s.started ≡ s.accepted) × (length s.finished ≡ length s.accepted)
  exits_drained n s steps left =
      let h = Steps-IsSound _ s steps (thread_pool-IsSound A n) in
      let (stopped, empty) = h.drained (any_of_all s.workers h.staffed left) in
      let all_started = sym (append-nil s.started) ∙ ap (◌++◌ s.started) (sym empty) ∙ h.in_order in
      (
        stopped,
        all_started,
        omega (arith, h.counted, all_idle s.workers left, ap length all_started),
      )
