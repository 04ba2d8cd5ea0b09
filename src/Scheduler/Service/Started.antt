-- ===== src/Scheduler/Service/Started.antt =====
-- Start of scheduler/scheduler.go: the recovery of the active jobs.
use schedule.Base.{
  is_pos, ◌+◌, ◌≡◌, refl, ap, subst, ◌⊎◌, inl, inr, true, false, Bool-cases, Option, none, some,
  Option-cases, List, [], ◌∷◌, arith, Result-cases, Error, already_running,
}
use schedule.Ticker.Window.{Time}
use schedule.Ticker.Any.{get_occurrences_between, start_ticker}
use schedule.Storage.{Storage}
use schedule.Job.{Job}
use schedule.Dispatch.{Node}
use schedule.Dispatch.Creates.{CreatesOnce}
use schedule.Dispatch.Once.{Extends, Ends, Ends-Extends, Ends-then, Extends-trans, unchanged}
use schedule.Recovery.{apply_strategy}
use schedule.Recovery.Once.{apply_strategy-Ends}
use schedule.Scheduler.Registry.{start_tickers, is_watched}
use schedule.Scheduler.Setup.{Scheduler, Outside, written}
use schedule.Scheduler.Service.{
  last_run, recover_between, recover_job, recover_jobs, start_scheduler,
}

-- The tickers of the jobs that are active and not paused are started, and nothing else changes.
abbrev pub TickersStarted : List Job → List Job → Type 0
TickersStarted [] [] = Unit
TickersStarted [] (k ∷ ks) = ⊥
TickersStarted (j ∷ js) [] = ⊥
TickersStarted (j ∷ js) (k ∷ ks) =
    ((j.active ≡ true) × (j.paused ≡ false) × (k ≡ record j { ticker = start_ticker j.ticker })
      ⊎ (((j.active ≡ false) ⊎ (j.paused ≡ true)) × (k ≡ j)))
    × TickersStarted js ks

start_tickers-TickersStarted : (jobs : List Job) → TickersStarted jobs (start_tickers jobs)
unfolding start_tickers is_watched
start_tickers-TickersStarted [] = tt
start_tickers-TickersStarted (j ∷ js) = (ground arith, start_tickers-TickersStarted js)

module _ (st : Storage) (once : CreatesOnce st) (out : Outside) where
  Recovered : Type 0
  Recovered = Option (Node st × Option Error)

  abbrev node_of : Option (Node st × Option Error) → Option (Node st)
  node_of none = none
  node_of (some (n, e)) = some n

  recover_between-Ends :
      (job : Job) (from now : Time) (n : Node st)
      → Ends st once n (node_of (recover_between st out job from now n))
  unfolding recover_between
  recover_between-Ends job from now n =
      elim (Result-cases (get_occurrences_between job.ticker from now)) [
        | inr (e, d) ↦
            rw (d, recover_between) (inl (n, refl, unchanged st once n n refl refl, refl))
        | inl (ts, d) ↦ elim (Option-cases (apply_strategy st out.env out.ids job ts n)) [
          | inl q ↦
              rw (d, q, recover_between)
                (subst (Ends st once n) q (apply_strategy-Ends st once out.env out.ids job ts n))
          | inr (m, q) ↦
              rw (d, q, recover_between)
                (subst (Ends st once n) q (apply_strategy-Ends st once out.env out.ids job ts n))
        ]
      ]

  recover_job-Ends : (job : Job) (n : Node st) → Ends st once n (node_of (recover_job st out job n))
  unfolding recover_job
  recover_job-Ends job n = elim (Result-cases (st.get_job job.id n.world.state)) [
    | inr (e, d) ↦ rw (d, recover_job) (inl (n, refl, unchanged st once n n refl refl, refl))
    | inl (stored, d) ↦
        let from = (last_run st out stored n.world).0 in
        let read = (last_run st out stored n.world).1 in
        let now = out.env.clock (n.world.asked + read) in
        let m = record n { world = written (read + 1) n.world.state n.world } in
        rw (d, recover_job)
          (Ends-then st once n (some m) (λ k. node_of (recover_between st out job from now k))
            (inl (m, refl, unchanged st once n m refl refl, refl))
            (λ k. recover_between-Ends job from now k))
  ]

  recover_jobs-Ends :
      (jobs : List Job) (n : Node st) → Ends st once n (node_of (recover_jobs st out jobs n))
  unfolding recover_jobs recover_job
  recover_jobs-Ends [] n = inl (n, refl, unchanged st once n n refl refl, refl)
  recover_jobs-Ends (job ∷ jobs) n = elim (Bool-cases job.active) [
    | inr i ↦ rw (i, recover_jobs) (recover_jobs-Ends jobs n)
    | inl a ↦ elim (Option-cases (recover_job st out job n)) [
      | inl q ↦
          rw (a, q, recover_jobs)
            (subst (λ r. Ends st once n (node_of r)) q (recover_job-Ends job n))
      | inr ((m, some e), q) ↦
          rw (a, q, recover_jobs)
            (subst (λ r. Ends st once n (node_of r)) q (recover_job-Ends job n))
      | inr ((m, none), q) ↦
          rw (a, q, recover_jobs)
            (Ends-then st once n (some m) (λ k. node_of (recover_jobs st out jobs k))
              (subst (λ r. Ends st once n (node_of r)) q (recover_job-Ends job n))
              (λ k. recover_jobs-Ends jobs k))
    ]
  ]

  panicked : (n : Node st) → Ends st once n none → n.pool_started ≡ false
  panicked n (inl (m, e, _, _)) = absurd (cc)
  panicked n (inr (e, s)) = s

  kept_pool : (n m : Node st) → Ends st once n (some m) → m.pool_started ≡ n.pool_started
  kept_pool n m (inl (l, d, _, s)) = cc
  kept_pool n m (inr (d, s)) = absurd (cc)

  -- A start that is refused; or one whose recovery panics in an execution, as it can while the pool is not
  -- started, or whose reaper panics; or one whose recovery is made and, if it has no error, after which the
  -- scheduler runs.
  abbrev pub EndsStarted : Scheduler st → Option (Scheduler st × Option Error) → Type 0
  EndsStarted s result =
      ((s.running ≡ true) × (result ≡ some (s, some already_running)))
      ⊎ (((s.running ≡ false)
            × (result ≡ none)
            × ((s.node.pool_started ≡ false) ⊎ (is_pos s.reaper_interval ≡ false)))
          ⊎ ((t : Scheduler st) × (e : Option Error) × (s.running ≡ false)
              × (result ≡ some (t, e))
              × Extends st once s.node t.node
              × (((e ≡ none)
                    × (is_pos s.reaper_interval ≡ true)
                    × (t.running ≡ true)
                    × (t.node.pool_started ≡ true)
                    × TickersStarted s.jobs t.jobs)
                  ⊎ (((x : Error) × (e ≡ some x))
                      × (t.running ≡ false)
                      × (t.node.pool_started ≡ s.node.pool_started)
                      × (t.jobs ≡ s.jobs)))))

  -- Start, over a storage that creates an occurrence once, is refused if the scheduler runs. Else its recovery
  -- submits occurrences that were not stored before, all different, which are stored afterwards, and
  -- loses nothing that is stored; without an error the pool is started then, with the tickers of the
  -- jobs that are active and not paused, and with an error neither is. It panics only in an execution, while
  -- the pool is not started, or in the goroutine of the reaper, whose interval is not positive then.
  pub start_scheduler_recovers : (s : Scheduler st) → EndsStarted s (start_scheduler st out s)
  unfolding start_scheduler
  start_scheduler_recovers s =
      let made = recover_jobs-Ends (out.order s.jobs) s.node in
      let made_by : (n : Node st) (e : Option Error)
          → recover_jobs st out (out.order s.jobs) s.node ≡ some (n, e)
          → Extends st once s.node n =
        λ n e q. Ends-Extends st once s.node n _ made (ap node_of q) in
      elim (Bool-cases s.running) [
        | inl r ↦ inl (r, rw (r, start_scheduler) refl)
        | inr r ↦ elim (Option-cases (recover_jobs st out (out.order s.jobs) s.node)) [
          | inl q ↦ inr (
              inl (
                r,
                rw (r, q, start_scheduler) refl,
                inl (panicked s.node (subst (λ x. Ends st once s.node (node_of x)) q made)),
              ))
          | inr ((n, some e), q) ↦ inr (
              inr (
                record s { node = n },
                some e,
                r,
                ground arith,
                made_by n (some e) q,
                inr (
                  (e, refl),
                  r,
                  kept_pool s.node n (subst (λ x. Ends st once s.node (node_of x)) q made),
                  refl,
                ),
              ))
          | inr ((n, none), q) ↦ elim (Bool-cases (is_pos s.reaper_interval)) [
            | inr z ↦ inr (inl (r, ground arith, inr z))
            | inl y ↦ inr (
                inr (
                  record s {
                    node = record n { pool_started = true };
                    jobs = start_tickers s.jobs;
                    running = true;
                  },
                  none,
                  r,
                  ground arith,
                  Extends-trans st once s.node n _ (made_by n none q)
                      (unchanged st once n _ refl refl),
                  inl (refl, y, refl, refl, start_tickers-TickersStarted s.jobs),
                ))
          ]
        ]
      ]
