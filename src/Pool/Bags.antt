-- ===== src/Pool/Bags.antt =====
-- The tasks of concurrency/pool.go as a bag: where a task is, and in which order, is forgotten; and the
-- tasks that end.
use mathlib.Core.Quot
use mathlib.Core.Quot.{Quot, Quot-set}
use schedule.Base.{
  append-nil, append_assoc, Option, none, some, ◌+◌, ◌≡◌, sym, ◌∙◌, ap, subst, Bool, List, [], ◌∷◌,
  ◌++◌, arith, inl, inr,
}
use schedule.Pool.{
  WorkerPool, PoolEvent, next, blocked, panics, pool_step, start_workers, begin_submit, send_task,
  see_stopped, receive_task, worker_returns, worker_ends, inline_ends, begin_stop, end_stop,
  run_pool, start_pool, stop_pool, stop_returns, submit_task, send, give_up, receive, leave,
  end_task, end_inline,
}
use schedule.Base.{take_at}
use schedule.Pool.Traces.{Lands, PoolOutcome-cases, next-injective}
use schedule.Pool.Conserved.{count, count-append, in_pool, brought, pool_step-Has, Has}

-- Two lists hold the same tasks, as often, whatever a test tells of them.
abbrev pub HoldSame : {A : Type 0} → List A → List A → Type 0
HoldSame {A} xs ys = (test : A → Bool) → count test xs ≡ count test ys

abbrev pub Bag : Type 0 → Type 0
Bag A = Quot (HoldSame {A = A})

module _ {A : Type 0} where
  abbrev pub tasks_of : WorkerPool A → List A
  tasks_of p = p.senders ++ (p.inline ++ (p.task_queue ++ (p.busy ++ (p.ended ++ p.given_up))))

  pub HoldSame-cons : (t : A) (xs ys : List A) → HoldSame xs ys → HoldSame (t ∷ xs) (t ∷ ys)
  unfolding count
  HoldSame-cons t xs ys h test = omega (arith, h test)

  unfoldable pub add : A → Bag A → Bag A
  add t =
      Quot.lift Quot-set (λ xs. Quot.mk (t ∷ xs)) (λ xs ys h. Quot.sound (HoldSame-cons t xs ys h))

  -- What an event does to the bag: only Submit adds to it, and nothing takes from it.
  unfoldable pub bag_event : PoolEvent A → Bag A → Bag A
  bag_event (submit_task t) b = add t b
  bag_event _ b = b

  unfoldable pub bag_run : List (PoolEvent A) → Bag A → Bag A
  bag_run [] b = b
  bag_run (e ∷ es) b = bag_run es (bag_event e b)

  abbrev pub bag_of : WorkerPool A → Bag A
  bag_of p = Quot.mk (tasks_of p)

  count-tasks_of : (test : A → Bool) (p : WorkerPool A) → count test (tasks_of p) ≡ in_pool test p
  unfolding in_pool
  count-tasks_of test p = omega (
    arith,
    count-append test p.senders (p.inline ++ (p.task_queue ++ (p.busy ++ (p.ended ++ p.given_up)))),
    count-append test p.inline (p.task_queue ++ (p.busy ++ (p.ended ++ p.given_up))),
    count-append test p.task_queue (p.busy ++ (p.ended ++ p.given_up)),
    count-append test p.busy (p.ended ++ p.given_up),
    count-append test p.ended p.given_up,
  )

  step_counts :
      (test : A → Bool) (e : PoolEvent A) (p r : WorkerPool A)
      → pool_step e p ≡ next r
      → count test (tasks_of r) ≡ count test (tasks_of p) + brought test e
  step_counts test e p r h =
      let moved : in_pool test r ≡ in_pool test p + brought test e =
        subst (Lands (Has test _)) h (pool_step-Has test e p) in
      omega (arith, moved, count-tasks_of test p, count-tasks_of test r)

  same_bag :
      (p r : WorkerPool A)
      → ((test : A → Bool) → count test (tasks_of r) ≡ count test (tasks_of p) + 0)
      → bag_of r ≡ bag_of p
  same_bag p r h = Quot.sound (λ test. omega (arith, h test))

  bag-pool_step :
      (e : PoolEvent A) (p r : WorkerPool A)
      → pool_step e p ≡ next r
      → bag_of r ≡ bag_event e (bag_of p)
  unfolding bag_event brought add count
  bag-pool_step (submit_task t) p r h =
      Quot.sound (λ test. omega (arith, step_counts test (submit_task t) p r h))
  bag-pool_step start_pool p r h = same_bag p r (λ test. step_counts test start_pool p r h)
  bag-pool_step stop_pool p r h = same_bag p r (λ test. step_counts test stop_pool p r h)
  bag-pool_step stop_returns p r h = same_bag p r (λ test. step_counts test stop_returns p r h)
  bag-pool_step (send k) p r h = same_bag p r (λ test. step_counts test (send k) p r h)
  bag-pool_step (give_up k) p r h = same_bag p r (λ test. step_counts test (give_up k) p r h)
  bag-pool_step receive p r h = same_bag p r (λ test. step_counts test receive p r h)
  bag-pool_step leave p r h = same_bag p r (λ test. step_counts test leave p r h)
  bag-pool_step (end_task k) p r h = same_bag p r (λ test. step_counts test (end_task k) p r h)
  bag-pool_step (end_inline k) p r h = same_bag p r (λ test. step_counts test (end_inline k) p r h)

  run_pool-bag :
      (es : List (PoolEvent A)) (p q : WorkerPool A)
      → run_pool es p ≡ next q
      → bag_of q ≡ bag_run es (bag_of p)
  unfolding run_pool bag_run
  run_pool-bag [] p q h = sym (ap bag_of (next-injective h))
  run_pool-bag (e ∷ es) p q h = elim (PoolOutcome-cases (pool_step e p)) [
    | inl (r, d) ↦
        run_pool-bag es r q (rw (d, run_pool) at h) ∙ ap (bag_run es) (bag-pool_step e p r d)
    | inr (inl d) ↦ absurd (cc (rw (d, run_pool) at h))
    | inr (inr d) ↦ absurd (cc (rw (d, run_pool) at h))
  ]

  taken_from : Option (A × List A) → List A
  taken_from none = []
  taken_from (some (t, others)) = t ∷ []

  -- The task that ends with an event.
  ended_by : PoolEvent A → WorkerPool A → List A
  unfolding taken_from
  ended_by (end_task k) p = taken_from (take_at k p.busy)
  ended_by (end_inline k) p = taken_from (take_at k p.inline)
  ended_by _ p = []

  -- The tasks that end in a run, in the order in which they do.
  unfoldable pub ended_in : List (PoolEvent A) → WorkerPool A → List A
  unfolding ended_by
  ended_in [] p = []
  ended_in (e ∷ es) p =
      ended_by e p ++ elim (pool_step e p) [ next q ↦ ended_in es q | blocked ↦ [] | panics ↦ [] ]

  ended-pool_step :
      (e : PoolEvent A) (p r : WorkerPool A)
      → pool_step e p ≡ next r
      → r.ended ≡ p.ended ++ ended_by e p
  unfolding pool_step ended_by taken_from start_workers begin_submit send_task see_stopped
      receive_task worker_returns worker_ends inline_ends begin_stop end_stop
  ended-pool_step e p r h = ground (arith, append-nil p.ended)

  run_pool-ended :
      (es : List (PoolEvent A)) (p q : WorkerPool A)
      → run_pool es p ≡ next q
      → q.ended ≡ p.ended ++ ended_in es p
  unfolding run_pool ended_in ended_by
  run_pool-ended [] p q h = sym (ap (λ r. r.ended) (next-injective h)) ∙ sym (append-nil p.ended)
  run_pool-ended (e ∷ es) p q h = elim (PoolOutcome-cases (pool_step e p)) [
    | inl (r, d) ↦
        let rest = run_pool-ended es r q (rw (d, run_pool) at h) in
        let now = ended-pool_step e p r d in
        rw (d, ended_in)
          (rest
            ∙ ap (λ l. l ++ ended_in es r) now
            ∙ append_assoc p.ended (ended_by e p) (ended_in es r))
    | inr (inl d) ↦ absurd (cc (rw (d, run_pool) at h))
    | inr (inr d) ↦ absurd (cc (rw (d, run_pool) at h))
  ]

  -- From any state of the pool, after any run: the tasks that are at a select, with a caller, in the
  -- queue, with a worker, ended or given up make up the bag that the submits of the run make of the
  -- bag before; and the tasks that have ended are those that had and, after them, each that ended in the
  -- run, as often as it did. So no task is lost from the account, and none ends more often than it was
  -- submitted, whatever the order of the calls and of the workers.
  pub run_pool-bag_run :
      (es : List (PoolEvent A)) (p q : WorkerPool A)
      → run_pool es p ≡ next q
      → (bag_of q ≡ bag_run es (bag_of p)) × (q.ended ≡ p.ended ++ ended_in es p)
  run_pool-bag_run es p q h = (run_pool-bag es p q h, run_pool-ended es p q h)
