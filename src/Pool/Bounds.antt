-- ===== src/Pool/Bounds.antt =====
-- The bounds of concurrency/pool.go.
use schedule.Base.{
  ℕ, zero, suc, ◌+◌, ◌≤◌, ◌≡◌, refl, true, false, List, [], ◌∷◌, ℤ, length, length-append, arith,
  Option-cases, inl, inr,
}
use schedule.Pool.{
  WorkerPool, PoolEvent, capacity, pool_step, run_pool, start_workers, begin_submit, send_task,
  see_stopped, receive_task, worker_returns, worker_ends, inline_ends, begin_stop, end_stop,
  start_pool, stop_pool, stop_returns, submit_task, send, give_up, receive, leave, end_task,
  end_inline, new_worker_pool,
}
use schedule.Base.{take_at}
use schedule.Pool.Traces.{Lands, run_pool-Lands}
use schedule.Base.{length-take_at}

module _ {A : Type 0} where
  abbrev pub workers : WorkerPool A → ℕ
  workers p = p.waiting + length p.busy

  -- The queue fits into its channel; the workers that have not returned are no more than the limit,
  -- none before Start and after Stop, and all of them until a Stop; a Stop that waits has closed the channels of a
  -- pool that is started.
  abbrev pub IsBounded : WorkerPool A → Type 0
  IsBounded p =
      (length p.task_queue ≤ capacity p)
      × (workers p ≤ p.max_workers)
      × (p.started ≡ false → workers p ≡ 0)
      × (p.started ≡ true → p.closed ≡ false → workers p ≡ p.max_workers)
      × (p.stopping ≡ true → (p.started ≡ true) × (p.closed ≡ true))

  start_workers-IsBounded : (p : WorkerPool A) → IsBounded p → Lands IsBounded (start_workers p)
  unfolding start_workers
  start_workers-IsBounded p h = ground arith

  begin_stop-IsBounded : (p : WorkerPool A) → IsBounded p → Lands IsBounded (begin_stop p)
  unfolding begin_stop
  begin_stop-IsBounded p h = ground arith

  end_stop-IsBounded : (p : WorkerPool A) → IsBounded p → Lands IsBounded (end_stop p)
  unfolding end_stop
  end_stop-IsBounded p h = ground arith

  begin_submit-IsBounded :
      (t : A) (p : WorkerPool A) → IsBounded p → Lands IsBounded (begin_submit t p)
  unfolding begin_submit
  begin_submit-IsBounded t p h = ground arith

  send_task-IsBounded : (k : ℕ) (p : WorkerPool A) → IsBounded p → Lands IsBounded (send_task k p)
  unfolding send_task
  send_task-IsBounded k p h = elim (Option-cases (take_at k p.senders)) [
    | inl d ↦ rw (d, send_task) tt
    | inr ((t, others), d) ↦ rw (d, send_task) (ground (arith, length-append p.task_queue (t ∷ [])))
  ]

  receive_task-IsBounded :
      (n : ℕ) (ts : List A) (p : WorkerPool A)
      → p.waiting ≡ n
      → p.task_queue ≡ ts
      → IsBounded p
      → Lands IsBounded (receive_task p)
  unfolding receive_task
  receive_task-IsBounded zero ts p e f h = rw (e, receive_task) tt
  receive_task-IsBounded (suc n) [] p e f h = rw (e, f, receive_task) tt
  receive_task-IsBounded (suc n) (t ∷ ts) p e f h =
      rw (e, f, receive_task)
        (ground (arith, length-append p.busy (t ∷ []), rw f at h.0, rw e at h))

  see_stopped-IsBounded :
      (k : ℕ) (p : WorkerPool A) → IsBounded p → Lands IsBounded (see_stopped k p)
  unfolding see_stopped
  see_stopped-IsBounded k p h = elim (Option-cases (take_at k p.senders)) [
    | inl d ↦ rw (d, see_stopped) tt
    | inr ((t, others), d) ↦ rw (d, see_stopped) (ground arith)
  ]

  worker_returns-IsBounded : (p : WorkerPool A) → IsBounded p → Lands IsBounded (worker_returns p)
  unfolding worker_returns
  worker_returns-IsBounded p h =
      elim p.waiting as (λ n. p.waiting ≡ n → Lands IsBounded (worker_returns p)) [
        | zero ↦ λ e. rw (e, worker_returns) tt
        | suc n ↦ λ e. rw (e, worker_returns) (ground (arith, rw e at h))
      ]
        refl

  worker_ends-IsBounded :
      (k : ℕ) (p : WorkerPool A) → IsBounded p → Lands IsBounded (worker_ends k p)
  unfolding worker_ends
  worker_ends-IsBounded k p h = elim (Option-cases (take_at k p.busy)) [
    | inl d ↦ rw (d, worker_ends) tt
    | inr ((t, others), d) ↦
        rw (d, worker_ends) (ground (arith, length-take_at k p.busy others t d))
  ]

  inline_ends-IsBounded :
      (k : ℕ) (p : WorkerPool A) → IsBounded p → Lands IsBounded (inline_ends k p)
  unfolding inline_ends
  inline_ends-IsBounded k p h = elim (Option-cases (take_at k p.inline)) [
    | inl d ↦ rw (d, inline_ends) tt
    | inr ((t, others), d) ↦ rw (d, inline_ends) (ground arith)
  ]

  pub pool_step-IsBounded :
      (e : PoolEvent A) (p : WorkerPool A) → IsBounded p → Lands IsBounded (pool_step e p)
  unfolding pool_step
  pool_step-IsBounded start_pool p h = start_workers-IsBounded p h
  pool_step-IsBounded stop_pool p h = begin_stop-IsBounded p h
  pool_step-IsBounded stop_returns p h = end_stop-IsBounded p h
  pool_step-IsBounded (submit_task t) p h = begin_submit-IsBounded t p h
  pool_step-IsBounded (send k) p h = send_task-IsBounded k p h
  pool_step-IsBounded (give_up k) p h = see_stopped-IsBounded k p h
  pool_step-IsBounded receive p h = receive_task-IsBounded p.waiting p.task_queue p refl refl h
  pool_step-IsBounded leave p h = worker_returns-IsBounded p h
  pool_step-IsBounded (end_task k) p h = worker_ends-IsBounded k p h
  pool_step-IsBounded (end_inline k) p h = inline_ends-IsBounded k p h

module _ (A : Type 0) where
  new_worker_pool-IsBounded : (n : ℤ) → IsBounded (new_worker_pool {A = A} n)
  unfolding new_worker_pool
  new_worker_pool-IsBounded n =
      (omega arith, omega arith, λ e. refl, λ e. absurd (cc), λ e. absurd (cc))

  -- Whatever calls and steps a new pool goes through, its queue holds at most twice as many tasks as
  -- it has workers at most, no more than that many tasks are run by workers at once, no worker is
  -- left when it is not started, and every worker is there from its start to a Stop.
  pub run_pool-IsBounded :
      (n : ℤ) (es : List (PoolEvent A)) → Lands IsBounded (run_pool es (new_worker_pool n))
  run_pool-IsBounded n es =
      run_pool-Lands IsBounded pool_step-IsBounded es (new_worker_pool n)
        (new_worker_pool-IsBounded n)
