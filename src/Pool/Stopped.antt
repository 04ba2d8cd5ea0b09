-- ===== src/Pool/Stopped.antt =====
-- Stop of concurrency/pool.go, and the pool after it.
use schedule.Base.{
  ℕ, zero, suc, ◌+◌, ◌≡◌, refl, sym, ◌∙◌, ap, ap₂, subst, true, false, some, List, [], ◌∷◌, ◌++◌,
  append-nil, append_assoc, length, arith, Option-cases, inl, inr,
}
use schedule.Pool.{
  WorkerPool, PoolEvent, next, panics, pool_step, run_pool, start_workers, begin_submit, send_task,
  see_stopped, receive_task, worker_returns, worker_ends, inline_ends, begin_stop, end_stop,
  start_pool, stop_pool, stop_returns, submit_task, send, give_up, receive, leave, end_task,
  end_inline,
}
use schedule.Base.{take_at}
use schedule.Pool.Traces.{run_after, run_pool-append, Lands, run_pool-Lands}

module _ {A : Type 0} where
  -- Every worker ends its task and returns, then Stop does.
  abbrev pub all_end : List A → List (PoolEvent A)
  all_end [] = []
  all_end (t ∷ ts) = end_task 0 ∷ all_end ts

  abbrev pub all_leave : ℕ → List (PoolEvent A)
  all_leave zero = []
  all_leave (suc n) = leave ∷ all_leave n

  ended_first :
      (t : A) (ts : List A) (p : WorkerPool A)
      → p.busy ≡ t ∷ ts
      → pool_step (end_task 0) p
        ≡ next (record p { busy = ts; waiting = suc p.waiting; ended = p.ended ++ t ∷ [] })
  unfolding pool_step worker_ends
  ended_first t ts p h = rw (h, pool_step, worker_ends) refl

  abbrev with_ended : WorkerPool A → List A → ℕ → List A → WorkerPool A
  with_ended p ts n us = record p { busy = ts; waiting = n; ended = us }

  ended_all :
      (ts : List A) (p : WorkerPool A)
      → p.busy ≡ ts
      → run_pool (all_end ts) p ≡ next (with_ended p [] (length ts + p.waiting) (p.ended ++ ts))
  unfolding run_pool
  ended_all [] p h =
      ap (λ b. next (with_ended p b p.waiting p.ended)) h
      ∙ ap₂ (λ n us. next (with_ended p [] n us)) (omega arith) (sym (append-nil p.ended))
  ended_all (t ∷ ts) p h =
      run_after (end_task 0) (all_end ts) p _ (ended_first t ts p h)
      ∙ ended_all ts (with_ended p ts (suc p.waiting) (p.ended ++ t ∷ [])) refl
      ∙ ap₂ (λ n us. next (with_ended p [] n us)) (omega arith) (append_assoc p.ended (t ∷ []) ts)

  left_first :
      (n : ℕ) (p : WorkerPool A)
      → p.waiting ≡ suc n
      → p.closed ≡ true
      → pool_step leave p ≡ next (record p { waiting = n })
  unfolding pool_step worker_returns
  left_first n p h c = rw (h, c, pool_step, worker_returns) refl

  left_all :
      (n : ℕ) (p : WorkerPool A)
      → p.waiting ≡ n
      → p.closed ≡ true
      → run_pool (all_leave n) p ≡ next (record p { waiting = 0 })
  unfolding run_pool
  left_all zero p h c = ap (λ n. next (record p { waiting = n })) h
  left_all (suc n) p h c =
      run_after leave (all_leave n) p _ (left_first n p h c)
      ∙ left_all n (record p { waiting = n }) refl c

  abbrev pub finishing : WorkerPool A → List (PoolEvent A)
  finishing p = all_end p.busy ++ (all_leave (length p.busy + p.waiting) ++ stop_returns ∷ [])

  returned :
      (p : WorkerPool A)
      → p.stopping ≡ true
      → p.waiting ≡ 0
      → p.busy ≡ []
      → run_pool (stop_returns ∷ []) p ≡ next (record p { stopping = false; started = false })
  unfolding run_pool pool_step end_stop
  returned p s w b = rw (s, w, b, pool_step, end_stop, run_pool) refl

  stops :
      (p : WorkerPool A)
      → p.started ≡ true
      → p.stopping ≡ false
      → p.closed ≡ false
      → pool_step stop_pool p ≡ next (record p { stopping = true; closed = true })
  unfolding pool_step begin_stop
  stops p s i c = rw (s, i, c, pool_step, begin_stop) refl

  finishes :
      (p : WorkerPool A)
      → p.stopping ≡ true
      → p.closed ≡ true
      → run_pool (finishing p) p
        ≡ next (record p {
          started = false;
          stopping = false;
          waiting = 0;
          busy = [];
          ended = p.ended ++ p.busy;
        })
  finishes p s c =
      let n = length p.busy + p.waiting in
      let r = with_ended p [] n (p.ended ++ p.busy) in
      run_pool-append (all_end p.busy) (all_leave n ++ stop_returns ∷ []) p r
        (ended_all p.busy p refl)
      ∙ run_pool-append (all_leave n) (stop_returns ∷ []) r (record r { waiting = 0 })
          (left_all n r refl c)
      ∙ returned (record r { waiting = 0 }) s refl refl

  -- Stop of a pool that is started and was not stopped before can always return: the workers end the
  -- tasks that they run, return, and so does the call. The pool is not started then, its
  -- channels are closed, and the tasks of the queue are still there.
  pub stop_finishes :
      (p : WorkerPool A)
      → p.started ≡ true
      → p.stopping ≡ false
      → p.closed ≡ false
      → run_pool (stop_pool ∷ finishing p) p
        ≡ next (record p {
          started = false;
          stopping = false;
          closed = true;
          waiting = 0;
          busy = [];
          ended = p.ended ++ p.busy;
        })
  stop_finishes p s i c =
      run_after stop_pool (finishing p) p (record p { stopping = true; closed = true })
        (stops p s i c)
      ∙ finishes (record p { stopping = true; closed = true }) refl refl

  -- A closed pool, with what is left of a queue.
  abbrev ClosedWith : List A → WorkerPool A → Type 0
  ClosedWith ts p = (p.closed ≡ true) × (taken : List A) × (ts ≡ taken ++ p.task_queue)

  send_task-ClosedWith :
      (ts : List A) (k : ℕ) (p : WorkerPool A)
      → ClosedWith ts p
      → Lands (ClosedWith ts) (send_task k p)
  unfolding send_task
  send_task-ClosedWith ts k p (c, taken, h) = elim (Option-cases (take_at k p.senders)) [
    | inl d ↦ rw (d, send_task) tt
    | inr ((t, others), d) ↦ rw (d, c, send_task) tt
  ]

  receive_task-ClosedWith :
      (ts : List A) (n : ℕ) (us : List A) (p : WorkerPool A)
      → p.waiting ≡ n
      → p.task_queue ≡ us
      → ClosedWith ts p
      → Lands (ClosedWith ts) (receive_task p)
  unfolding receive_task
  receive_task-ClosedWith ts zero us p e f h = rw (e, receive_task) tt
  receive_task-ClosedWith ts (suc n) [] p e f h = rw (e, f, receive_task) tt
  receive_task-ClosedWith ts (suc n) (u ∷ us) p e f (c, taken, h) =
      rw (e, f, receive_task)
        (c, taken ++ u ∷ [], h ∙ ap (λ l. taken ++ l) f ∙ sym (append_assoc taken (u ∷ []) us))

  pool_step-ClosedWith :
      (ts : List A) (e : PoolEvent A) (p : WorkerPool A)
      → ClosedWith ts p
      → Lands (ClosedWith ts) (pool_step e p)
  unfolding pool_step start_workers begin_stop end_stop begin_submit worker_returns see_stopped
      worker_ends inline_ends
  pool_step-ClosedWith ts start_pool p h = ground arith
  pool_step-ClosedWith ts stop_pool p h = ground arith
  pool_step-ClosedWith ts stop_returns p h = ground arith
  pool_step-ClosedWith ts (submit_task t) p h = ground arith
  pool_step-ClosedWith ts (send k) p h = send_task-ClosedWith ts k p h
  pool_step-ClosedWith ts (give_up k) p h = ground arith
  pool_step-ClosedWith ts receive p h =
      receive_task-ClosedWith ts p.waiting p.task_queue p refl refl h
  pool_step-ClosedWith ts leave p h = ground arith
  pool_step-ClosedWith ts (end_task k) p h = ground arith
  pool_step-ClosedWith ts (end_inline k) p h = ground arith

  -- After a Stop, whatever calls and steps follow, a Start among them: no task is added to the queue,
  -- of which the workers can only take what was left; every Submit that chooses to send panics; and
  -- so does Stop if the pool was started again.
  pub restart_panics :
      (es : List (PoolEvent A)) (p q : WorkerPool A)
      → p.closed ≡ true
      → run_pool es p ≡ next q
      → ((taken : List A) × (p.task_queue ≡ taken ++ q.task_queue))
        × ((k : ℕ) (task : A) (others : List A)
            → take_at k q.senders ≡ some (task, others)
            → pool_step (send k) q ≡ panics)
        × (q.started ≡ true → q.stopping ≡ false → pool_step stop_pool q ≡ panics)
  unfolding pool_step send_task begin_stop
  restart_panics es p q c h =
      let (c', taken, left) = subst (Lands (ClosedWith p.task_queue)) h (
        run_pool-Lands (ClosedWith p.task_queue) (pool_step-ClosedWith p.task_queue) es p
          (c, [], refl)) in
      (
        (taken, left),
        λ k task others d. rw (d, c', pool_step, send_task) refl,
        λ s i. rw (s, i, c', pool_step, begin_stop) refl,
      )
