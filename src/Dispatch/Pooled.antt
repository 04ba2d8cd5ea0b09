-- ===== src/Dispatch/Pooled.antt =====
-- What Dispatch takes of the pool, held against the pool of concurrency/pool.go.
use schedule.Base.{
  ℕ, suc, ◌<◌, ◌≡◌, refl, ◌∙◌, ap, subst, true, false, Option, none, some, Option-cases,
  some-injective, inl, inr, List, [], ◌∷◌, ◌++◌, arith, ltb, length,
}
use schedule.Types.{JobOccurrence}
use schedule.Storage.{Storage}
use schedule.Ids.{Formats}
use schedule.Job.{Job}
use schedule.Executor.{Env}
use schedule.Executor.Groups.{execute_job_occurrence}
use schedule.Dispatch.{Node, submit, work}
use schedule.Pool.{
  WorkerPool, PoolEvent, next, submit_task, send, receive, end_task, capacity, pool_step, run_pool,
  begin_submit, send_task, receive_task, worker_ends,
}
use schedule.Pool.Traces.{run_after, run_pool-append}

module _ {A : Type 0} where
  begins :
      (t : A) (p : WorkerPool A)
      → p.stopping ≡ false
      → p.started ≡ true
      → p.senders ≡ []
      → pool_step (submit_task t) p ≡ next (record p { senders = t ∷ [] })
  unfolding pool_step begin_submit
  begins t p s r n = rw (s, r, n, pool_step, begin_submit) refl

  sends :
      (t : A) (p : WorkerPool A)
      → p.closed ≡ false
      → length p.task_queue < capacity p
      → pool_step (send 0) (record p { senders = t ∷ [] })
        ≡ next (record p { senders = []; task_queue = p.task_queue ++ t ∷ [] })
  unfolding pool_step send_task
  sends t p c room =
      let fits : ltb (length p.task_queue) (capacity p) ≡ true = ground arith in
      rw (c, fits, pool_step, send_task) refl

  receives :
      (k : ℕ) (t : A) (ts : List A) (p : WorkerPool A)
      → p.waiting ≡ suc k
      → p.task_queue ≡ t ∷ ts
      → p.busy ≡ []
      → pool_step receive p ≡ next (record p { waiting = k; task_queue = ts; busy = t ∷ [] })
  unfolding pool_step receive_task
  receives k t ts p w q b = rw (w, q, b, pool_step, receive_task) refl

  ends :
      (k : ℕ) (t : A) (ts : List A) (p : WorkerPool A)
      → pool_step (end_task 0) (record p { waiting = k; task_queue = ts; busy = t ∷ [] })
        ≡ next (record p { waiting = suc k; task_queue = ts; busy = []; ended = p.ended ++ t ∷ [] })
  unfolding pool_step worker_ends
  ends k t ts p = refl

-- An execution is submitted, or a worker takes one.
pub data Handed : Type 0 where
  hand : Job → JobOccurrence → Handed
  take : Handed

module _ (st : Storage) (env : Env) (ids : Formats) where
  unfoldable pub hand_one : Handed → Node st → Option (Node st)
  hand_one (hand job o) n = submit st env ids job o n
  hand_one take n = work st env ids n

  unfoldable pub hand_all : List Handed → Node st → Option (Node st)
  hand_all [] n = some n
  hand_all (e ∷ es) n = elim (hand_one e n) [ none ↦ none | some m ↦ hand_all es m ]

  -- The channel has room at each submit.
  abbrev pub HasRoom : ℕ → Handed → Node st → Type 0
  HasRoom most (hand job o) n = length n.task_queue < most
  HasRoom most take n = Unit

  abbrev pub HasRoomFor : ℕ → List Handed → Node st → Type 0
  HasRoomFor most [] n = Unit
  HasRoomFor most (e ∷ es) n =
      HasRoom most e n × ((m : Node st) → hand_one e n ≡ some m → HasRoomFor most es m)

  -- A pool that runs with the queue of the node, a worker that waits and no call at its select.
  pub record Matches (most : ℕ) (n : Node st) (p : WorkerPool (Job × JobOccurrence)) : Type 0 where
    pub node_started : n.pool_started ≡ true
    pub started : p.started ≡ true
    pub queue : p.task_queue ≡ n.task_queue
    pub still : p.stopping ≡ false
    pub is_open : p.closed ≡ false
    pub nobody : p.senders ≡ []
    pub idle : p.busy ≡ []
    pub others : ℕ
    pub a_worker : p.waiting ≡ suc others
    pub size : capacity p ≡ most

  -- The pool has a run of its own that ends as the node does.
  abbrev pub IsPooled : ℕ → WorkerPool (Job × JobOccurrence) → Node st → Type 0
  IsPooled most p m =
      (es : List (PoolEvent (Job × JobOccurrence))) × (q : WorkerPool (Job × JobOccurrence))
      × (run_pool es p ≡ next q)
      × Matches most m q

  submit-IsPooled :
      (most : ℕ) (job : Job) (o : JobOccurrence) (n m : Node st)
      (p : WorkerPool (Job × JobOccurrence))
      → Matches most n p
      → length n.task_queue < most
      → submit st env ids job o n ≡ some m
      → IsPooled most p m
  unfolding submit run_pool
  submit-IsPooled most job o n m p a room h =
      let fits : length p.task_queue < capacity p =
        omega (arith, room, ap length a.queue, a.size) in
      let q = record p { senders = []; task_queue = p.task_queue ++ (job, o) ∷ [] } in
      let same = some-injective _ _ (rw (a.node_started, submit) at h) in
      (
        submit_task (job, o) ∷ send 0 ∷ [],
        q,
        run_after (submit_task (job, o)) (send 0 ∷ []) p _
              (begins (job, o) p a.still a.started a.nobody)
            ∙ run_after (send 0) [] _ q (sends (job, o) p a.is_open fits),
        subst (λ m. Matches most m q) same
            (record {
              node_started = refl;
              started = a.started;
              queue = ap (λ l. l ++ (job, o) ∷ []) a.queue;
              still = a.still;
              is_open = a.is_open;
              nobody = refl;
              idle = a.idle;
              others = a.others;
              a_worker = a.a_worker;
              size = a.size;
            }),
      )

  work-IsPooled :
      (most : ℕ) (tasks : List (Job × JobOccurrence)) (n m : Node st)
      (p : WorkerPool (Job × JobOccurrence))
      → n.task_queue ≡ tasks
      → Matches most n p
      → work st env ids n ≡ some m
      → IsPooled most p m
  unfolding work run_pool
  work-IsPooled most [] n m p e a h =
      ([], p, refl, subst (λ m. Matches most m p) (some-injective _ _ (rw (e, work) at h)) a)
  work-IsPooled most ((job, o) ∷ ts) n m p e a h =
      elim (Option-cases (execute_job_occurrence st env ids job o n.world)) [
        | inl d ↦ absurd (cc (rw (e, d, work) at h))
        | inr ((x, w), d) ↦
            let q = record p {
              waiting = suc a.others;
              task_queue = ts;
              busy = [];
              ended = p.ended ++ (job, o) ∷ [];
            } in
            (
              receive ∷ end_task 0 ∷ [],
              q,
              run_after receive (end_task 0 ∷ []) p _
                    (receives a.others (job, o) ts p a.a_worker (a.queue ∙ e) a.idle)
                  ∙ run_after (end_task 0) [] _ q (ends a.others (job, o) ts p),
              subst (λ m. Matches most m q) (some-injective _ _ (rw (e, d, work) at h))
                  (record {
                    node_started = a.node_started;
                    started = a.started;
                    queue = refl;
                    still = a.still;
                    is_open = a.is_open;
                    nobody = a.nobody;
                    idle = refl;
                    others = a.others;
                    a_worker = refl;
                    size = a.size;
                  }),
            )
      ]

  hand_one-IsPooled :
      (most : ℕ) (e : Handed) (n m : Node st) (p : WorkerPool (Job × JobOccurrence))
      → Matches most n p
      → HasRoom most e n
      → hand_one e n ≡ some m
      → IsPooled most p m
  unfolding hand_one
  hand_one-IsPooled most (hand job o) n m p a room h = submit-IsPooled most job o n m p a room h
  hand_one-IsPooled most take n m p a room h = work-IsPooled most n.task_queue n m p refl a h

  -- Whatever a started node submits and its workers take, if the channel of the pool has room at each
  -- submit, the pool of concurrency/pool.go has a run that ends with the queue that the node ends
  -- with: the queue without a bound, which the scheduler is modelled with, is then the pool's.
  pub node_refines :
      (most : ℕ) (es : List Handed) (n m : Node st) (p : WorkerPool (Job × JobOccurrence))
      → Matches most n p
      → HasRoomFor most es n
      → hand_all es n ≡ some m
      → IsPooled most p m
  unfolding hand_all run_pool
  node_refines most [] n m p a room h =
      ([], p, refl, subst (λ m. Matches most m p) (some-injective _ _ h) a)
  node_refines most (e ∷ es) n m p a room h = elim (Option-cases (hand_one e n)) [
    | inl d ↦ absurd (cc (rw (d, hand_all) at h))
    | inr (k, d) ↦
        let (fs, q, run, b) = hand_one-IsPooled most e n k p a room.0 d in
        let (gs, r, further, c) =
          node_refines most es k m q b (room.1 k d) (rw (d, hand_all) at h) in
        (fs ++ gs, r, run_pool-append fs gs p q run ∙ further, c)
  ]
