-- ===== src/Pool/Queue.antt =====
-- What concurrency/pool.go promises: a queue of bounded length, served in order, of which a bounded
-- number of tasks is active at once.
use schedule.Base.{
  ℕ, zero, suc, ◌*◌, ◌<◌, ◌≡◌, refl, sym, subst, some, List, [], ◌∷◌, ◌++◌, length, arith,
  Bool-cases, Option-cases, inl, inr, ltb,
}
use schedule.Pool.{
  WorkerPool, PoolEvent, next, capacity, pool_step, run_pool, start_workers, begin_submit,
  send_task, see_stopped, receive_task, worker_returns, worker_ends, inline_ends, begin_stop,
  end_stop, start_pool, stop_pool, stop_returns, submit_task, send, give_up, receive, leave,
  end_task, end_inline,
}
use schedule.Base.{take_at}
use schedule.Pool.Traces.{Lands, PoolOutcome-cases, next-injective}
use schedule.Pool.Bounds.{IsBounded, pool_step-IsBounded}

module _ (A : Type 0) where
  pub record Service : Type 0 where
    pub limit : ℕ
    pub line : List A
    pub active : List A

  -- A task joins the end of a line with room, the first of the line becomes active while others than
  -- the limit are, an active one ends.
  pub data Serves : Service → Service → Type 0 where
    joins :
        (s : Service) (task : A)
        → length s.line < s.limit * 2
        → Serves s (record s { line = s.line ++ task ∷ [] })
    begins :
        (s : Service) (task : A) (tasks : List A)
        → s.line ≡ task ∷ tasks
        → length s.active < s.limit
        → Serves s (record s { line = tasks; active = s.active ++ task ∷ [] })
    ends :
        (s : Service) (k : ℕ) (task : A) (others : List A)
        → take_at k s.active ≡ some (task, others)
        → Serves s (record s { active = others })

  pub data Served : Service → Service → Type 0 where
    at_rest : (s : Service) → Served s s
    then_serves : (s t u : Service) → Served s t → Serves t u → Served s u

module _ {A : Type 0} where
  abbrev pub service : WorkerPool A → Service A
  service p = record { limit = p.max_workers; line = p.task_queue; active = p.busy }

  pub Served-trans : (s t u : Service A) → Served A s t → Served A t u → Served A s u
  Served-trans s t u a (at_rest v) = a
  Served-trans s t u a (then_serves v w x b c) = then_serves s w x (Served-trans s v w a b) c

  one : (s t : Service A) → Serves A s t → Served A s t
  one s t h = then_serves s s t (at_rest s) h

  abbrev From : WorkerPool A → WorkerPool A → Type 0
  From p q = Served A (service p) (service q)

  send_task-From : (k : ℕ) (p : WorkerPool A) → Lands (From p) (send_task k p)
  unfolding send_task
  send_task-From k p = elim (Option-cases (take_at k p.senders)) [
    | inl d ↦ rw (d, send_task) tt
    | inr ((t, others), d) ↦ elim (Bool-cases p.closed) [
      | inl c ↦ rw (d, c, send_task) tt
      | inr c ↦ elim (Bool-cases (ltb (length p.task_queue) (capacity p))) [
        | inl r ↦ rw (d, c, r, send_task) (one _ _ (joins (service p) t (ground arith)))
        | inr r ↦ rw (d, c, r, send_task) tt
      ]
    ]
  ]

  received :
      (n : ℕ) (p : WorkerPool A) (t : A) (ts : List A)
      → p.waiting ≡ suc n
      → p.task_queue ≡ t ∷ ts
      → receive_task p ≡ next (record p { waiting = n; task_queue = ts; busy = p.busy ++ t ∷ [] })
  unfolding receive_task
  received n p t ts e f = rw (e, f, receive_task) refl

  receive_task-From :
      (n : ℕ) (ts : List A) (p : WorkerPool A)
      → p.waiting ≡ n
      → p.task_queue ≡ ts
      → IsBounded p
      → Lands (From p) (receive_task p)
  unfolding receive_task
  receive_task-From zero ts p e f h = rw (e, receive_task) tt
  receive_task-From (suc n) [] p e f h = rw (e, f, receive_task) tt
  receive_task-From (suc n) (t ∷ ts) p e f h =
      let room : length p.busy < p.max_workers = omega (arith, h.1, e) in
      subst (Lands (From p)) (sym (received n p t ts e f))
        (one _ _ (begins (service p) t ts f room))

  worker_ends-From : (k : ℕ) (p : WorkerPool A) → Lands (From p) (worker_ends k p)
  unfolding worker_ends
  worker_ends-From k p = elim (Option-cases (take_at k p.busy)) [
    | inl d ↦ rw (d, worker_ends) tt
    | inr ((t, others), d) ↦ rw (d, worker_ends) (one _ _ (ends (service p) k t others d))
  ]

  start_workers-From : (p : WorkerPool A) → Lands (From p) (start_workers p)
  unfolding start_workers
  start_workers-From p = ground (arith, at_rest (service p))

  begin_submit-From : (t : A) (p : WorkerPool A) → Lands (From p) (begin_submit t p)
  unfolding begin_submit
  begin_submit-From t p = ground (arith, at_rest (service p))

  inline_ends-From : (k : ℕ) (p : WorkerPool A) → Lands (From p) (inline_ends k p)
  unfolding inline_ends
  inline_ends-From k p = ground (arith, at_rest (service p))

  see_stopped-From : (k : ℕ) (p : WorkerPool A) → Lands (From p) (see_stopped k p)
  unfolding see_stopped
  see_stopped-From k p = ground (arith, at_rest (service p))

  worker_returns-From : (p : WorkerPool A) → Lands (From p) (worker_returns p)
  unfolding worker_returns
  worker_returns-From p = ground (arith, at_rest (service p))

  begin_stop-From : (p : WorkerPool A) → Lands (From p) (begin_stop p)
  unfolding begin_stop
  begin_stop-From p = ground (arith, at_rest (service p))

  end_stop-From : (p : WorkerPool A) → Lands (From p) (end_stop p)
  unfolding end_stop
  end_stop-From p = ground (arith, at_rest (service p))

  pool_step-From :
      (e : PoolEvent A) (p : WorkerPool A) → IsBounded p → Lands (From p) (pool_step e p)
  unfolding pool_step
  pool_step-From start_pool p h = start_workers-From p
  pool_step-From stop_pool p h = begin_stop-From p
  pool_step-From stop_returns p h = end_stop-From p
  pool_step-From (submit_task t) p h = begin_submit-From t p
  pool_step-From (send k) p h = send_task-From k p
  pool_step-From (give_up k) p h = see_stopped-From k p
  pool_step-From receive p h = receive_task-From p.waiting p.task_queue p refl refl h
  pool_step-From leave p h = worker_returns-From p
  pool_step-From (end_task k) p h = worker_ends-From k p
  pool_step-From (end_inline k) p h = inline_ends-From k p

  -- Every run of a pool that is within its bounds, as a new one is, does for its queue and its
  -- workers' tasks what the service promises: tasks join the end of a line of bounded length, become active in
  -- the order of the line while fewer than the limit are, and end.
  pub run_pool_refines :
      (es : List (PoolEvent A)) (p q : WorkerPool A)
      → IsBounded p
      → run_pool es p ≡ next q
      → Served A (service p) (service q)
  unfolding run_pool
  run_pool_refines [] p q b h = subst (From p) (next-injective h) (at_rest (service p))
  run_pool_refines (e ∷ es) p q b h = elim (PoolOutcome-cases (pool_step e p)) [
    | inl (r, d) ↦ Served-trans _ _ _ (subst (Lands (From p)) d (pool_step-From e p b)) (
        run_pool_refines es r q (subst (Lands IsBounded) d (pool_step-IsBounded e p b))
          (rw (d, run_pool) at h))
    | inr (inl d) ↦ absurd (cc (rw (d, run_pool) at h))
    | inr (inr d) ↦ absurd (cc (rw (d, run_pool) at h))
  ]
