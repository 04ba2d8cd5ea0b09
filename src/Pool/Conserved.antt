-- ===== src/Pool/Conserved.antt =====
-- Where the tasks of concurrency/pool.go are: each that was submitted is in one place.
use schedule.Base.{
  ℕ, zero, suc, ◌+◌, ◌≡◌, refl, Bool, some, List, [], ◌∷◌, ◌++◌, subst, sym, add-zero, arith,
  Option-cases, inl, inr, if◌then◌else◌,
}
use schedule.Pool.{
  WorkerPool, PoolEvent, PoolOutcome, pool_step, start_workers, begin_submit, send_task,
  see_stopped, receive_task, worker_returns, worker_ends, inline_ends, begin_stop, end_stop,
  start_pool, stop_pool, stop_returns, submit_task, send, give_up, receive, leave, end_task,
  end_inline,
}
use schedule.Base.{take_at}
use schedule.Pool.Traces.{Lands}

module _ {A : Type 0} (test : A → Bool) where
  -- How many of a list's elements pass the test.
  unfoldable pub count : List A → ℕ
  count [] = 0
  count (x ∷ xs) = (if test x then 1 else 0) + count xs

  pub count-append : (xs ys : List A) → count (xs ++ ys) ≡ count xs + count ys
  unfolding count
  count-append [] ys = omega arith
  count-append (x ∷ xs) ys = omega (arith, count-append xs ys)

  count-take_at :
      (k : ℕ) (xs ys : List A) (x : A)
      → take_at k xs ≡ some (x, ys)
      → count xs ≡ count (x ∷ []) + count ys
  unfolding count
  count-take_at k [] ys x h = absurd (cc)
  count-take_at zero (z ∷ xs) ys x h = ground arith
  count-take_at (suc k) (z ∷ xs) ys x h = elim (Option-cases (take_at k xs)) [
    | inl d ↦ absurd (cc (rw d at h))
    | inr ((y, zs), d) ↦ ground (arith, count-take_at k xs zs y d)
  ]

  -- The tasks in a pool: at a select, with a caller, in the queue, with a worker, ended or given up.
  unfoldable pub in_pool : WorkerPool A → ℕ
  in_pool p =
      count p.senders
      + count p.inline
      + count p.task_queue
      + count p.busy
      + count p.ended
      + count p.given_up

  -- What an event brings into the pool.
  unfoldable pub brought : PoolEvent A → ℕ
  brought (submit_task t) = count (t ∷ [])
  brought _ = 0

  abbrev pub Has : ℕ → WorkerPool A → Type 0
  Has n p = in_pool p ≡ n

  begin_submit-Has :
      (t : A) (p : WorkerPool A) → Lands (Has (in_pool p + count (t ∷ []))) (begin_submit t p)
  unfolding begin_submit in_pool
  begin_submit-Has t p =
      ground (arith, count-append p.senders (t ∷ []), count-append p.inline (t ∷ []))

  send_task-Has : (k : ℕ) (p : WorkerPool A) → Lands (Has (in_pool p)) (send_task k p)
  unfolding send_task in_pool
  send_task-Has k p = elim (Option-cases (take_at k p.senders)) [
    | inl d ↦ rw (d, send_task) tt
    | inr ((t, others), d) ↦
        rw (d, send_task)
          (ground (arith, count-append p.task_queue (t ∷ []), count-take_at k p.senders others t d))
  ]

  see_stopped-Has : (k : ℕ) (p : WorkerPool A) → Lands (Has (in_pool p)) (see_stopped k p)
  unfolding see_stopped in_pool
  see_stopped-Has k p = elim (Option-cases (take_at k p.senders)) [
    | inl d ↦ rw (d, see_stopped) tt
    | inr ((t, others), d) ↦
        rw (d, see_stopped)
          (ground (arith, count-append p.given_up (t ∷ []), count-take_at k p.senders others t d))
  ]

  worker_ends-Has : (k : ℕ) (p : WorkerPool A) → Lands (Has (in_pool p)) (worker_ends k p)
  unfolding worker_ends in_pool
  worker_ends-Has k p = elim (Option-cases (take_at k p.busy)) [
    | inl d ↦ rw (d, worker_ends) tt
    | inr ((t, others), d) ↦
        rw (d, worker_ends)
          (ground (arith, count-append p.ended (t ∷ []), count-take_at k p.busy others t d))
  ]

  inline_ends-Has : (k : ℕ) (p : WorkerPool A) → Lands (Has (in_pool p)) (inline_ends k p)
  unfolding inline_ends in_pool
  inline_ends-Has k p = elim (Option-cases (take_at k p.inline)) [
    | inl d ↦ rw (d, inline_ends) tt
    | inr ((t, others), d) ↦
        rw (d, inline_ends)
          (ground (arith, count-append p.ended (t ∷ []), count-take_at k p.inline others t d))
  ]

  receive_task-Has :
      (n : ℕ) (ts : List A) (p : WorkerPool A)
      → p.waiting ≡ n
      → p.task_queue ≡ ts
      → Lands (Has (in_pool p)) (receive_task p)
  unfolding receive_task in_pool count
  receive_task-Has zero ts p e f = rw (e, receive_task) tt
  receive_task-Has (suc n) [] p e f = rw (e, f, receive_task) tt
  receive_task-Has (suc n) (t ∷ ts) p e f =
      rw (e, f, receive_task) (omega (arith, count-append p.busy (t ∷ [])))

  worker_returns-Has : (p : WorkerPool A) → Lands (Has (in_pool p)) (worker_returns p)
  unfolding worker_returns in_pool
  worker_returns-Has p = ground arith

  start_workers-Has : (p : WorkerPool A) → Lands (Has (in_pool p)) (start_workers p)
  unfolding start_workers in_pool
  start_workers-Has p = ground arith

  begin_stop-Has : (p : WorkerPool A) → Lands (Has (in_pool p)) (begin_stop p)
  unfolding begin_stop in_pool
  begin_stop-Has p = ground arith

  end_stop-Has : (p : WorkerPool A) → Lands (Has (in_pool p)) (end_stop p)
  unfolding end_stop in_pool
  end_stop-Has p = ground arith

  unchanged :
      (p : WorkerPool A) (o : PoolOutcome A)
      → Lands (Has (in_pool p)) o
      → Lands (Has (in_pool p + 0)) o
  unchanged p o h = subst (λ n. Lands (Has n) o) (sym (add-zero (in_pool p))) h

  pub pool_step-Has :
      (e : PoolEvent A) (p : WorkerPool A) → Lands (Has (in_pool p + brought e)) (pool_step e p)
  unfolding pool_step brought
  pool_step-Has (submit_task t) p = begin_submit-Has t p
  pool_step-Has start_pool p = unchanged p _ (start_workers-Has p)
  pool_step-Has stop_pool p = unchanged p _ (begin_stop-Has p)
  pool_step-Has stop_returns p = unchanged p _ (end_stop-Has p)
  pool_step-Has (send k) p = unchanged p _ (send_task-Has k p)
  pool_step-Has (give_up k) p = unchanged p _ (see_stopped-Has k p)
  pool_step-Has receive p = unchanged p _ (receive_task-Has p.waiting p.task_queue p refl refl)
  pool_step-Has leave p = unchanged p _ (worker_returns-Has p)
  pool_step-Has (end_task k) p = unchanged p _ (worker_ends-Has k p)
  pool_step-Has (end_inline k) p = unchanged p _ (inline_ends-Has k p)
