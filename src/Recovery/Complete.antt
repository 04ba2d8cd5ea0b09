-- ===== src/Recovery/Complete.antt =====
-- No missed time of recovery/recovery.go is lost: those that the strategy chooses are stored at the end.
use schedule.Base.{
  ◌≡◌, refl, subst, false, Bool-cases, Option, none, some, some-injective, Option-cases,
  Result-cases, inl, inr, List, [], ◌∷◌, Text, codes, All, ⊎-elim, ◌⊎◌, arith,
}
use schedule.Ticker.Window.{Time}
use schedule.Types.{
  RecoveryStrategy, execute_all, execute_last, mark_as_missed, bounded_window, compressed_catch_up,
  other_recovery, JobOccurrence, BoundedWindow,
}
use schedule.Storage.{Storage}
use schedule.Ids.{Formats, generate_job_occurrence_id}
use schedule.Job.{Job}
use schedule.Executor.{Env}
use schedule.Executor.Groups.{execute_job_occurrence}
use schedule.Dispatch.{Node, submit}
use schedule.Dispatch.Creates.{CreatesOnce, RefusesStored}
use schedule.Dispatch.Once.{Extends, Ends-Extends, executed_kept}
use schedule.Recovery.{
  recovery_occurrence, ask_twice, stored_recovery, schedule_recovery_run, run_all, run_last,
  run_bounded, by_strategy, apply_strategy, last, recent, latest,
}
use schedule.Recovery.Once.{schedule_recovery_run-Ends, apply_strategy-Ends}

-- The times that a strategy runs.
abbrev last_one : Option Time → List Time
last_one none = []
last_one (some t) = t ∷ []

abbrev in_window : Option BoundedWindow → Time → List Time → List Time
in_window none now ts = ts
in_window (some w) now ts = latest w (recent w now ts)

abbrev pub chosen : Job → Time → List Time → List Time
chosen job now ts = elim job.config.recovery_strategy [
  | execute_all ↦ ts
  | execute_last ↦ last_one (last ts)
  | mark_as_missed ↦ []
  | bounded_window ↦ in_window job.config.bounded_window now ts
  | compressed_catch_up ↦ ts
  | other_recovery ↦ ts
]

none_in : (w : Option BoundedWindow) (now : Time) → in_window w now [] ≡ []
unfolding latest recent
none_in none now = refl
none_in (some w) now = ground arith

module _ (st : Storage) (once : CreatesOnce st) (refuses : RefusesStored st once) (env : Env)
    (ids : Formats) where
  abbrev pub HasTime : Job → Node st → Time → Type 0
  HasTime job n t = once.Stored job.id (generate_job_occurrence_id ids job.id t) n.world.state

  submit_kept :
      (job : Job) (o : JobOccurrence) (n m : Node st) (j i : Text)
      → submit st env ids job o n ≡ some m
      → once.Stored j i n.world.state
      → once.Stored j i m.world.state
  unfolding submit
  submit_kept job o n m j i h k = elim (Bool-cases n.pool_started) [
    | inl y ↦
        subst (λ (n : Node st). once.Stored j i n.world.state)
          (some-injective _ _ (rw (y, submit) at h)) k
    | inr f ↦ elim (Option-cases (execute_job_occurrence st env ids job o n.world)) [
      | inl d ↦ absurd (cc (rw (f, d, submit) at h))
      | inr ((x, w), d) ↦
          subst (λ (n : Node st). once.Stored j i n.world.state)
            (some-injective _ _ (rw (f, d, submit) at h))
            (executed_kept st once env ids job o n.world w x d j i k)
    ]
  ]

  scheduled :
      (strategy : Text) (job : Job) (t : Time) (n m : Node st)
      → schedule_recovery_run st env ids strategy job t n ≡ some m
      → HasTime job m t
  unfolding schedule_recovery_run ask_twice stored_recovery recovery_occurrence
  scheduled strategy job t n m h =
      let r = stored_recovery (recovery_occurrence st env ids job t n) in
      elim (Result-cases (st.create_job_occurrence r n.world.state)) [
        | inl (s, c) ↦
            submit_kept job _ _ m _ _ (rw (c, schedule_recovery_run) at h)
              (once.now_stored r n.world.state s c)
        | inr (e, c) ↦
            subst (λ n. HasTime job n t) (some-injective _ _ (rw (c, schedule_recovery_run) at h))
              (refuses r n.world.state e c)
      ]

  time_kept :
      (strategy : Text) (job : Job) (t u : Time) (n m : Node st)
      → schedule_recovery_run st env ids strategy job t n ≡ some m
      → HasTime job n u
      → HasTime job m u
  time_kept strategy job t u n m h k =
      (Ends-Extends st once n m _ (schedule_recovery_run-Ends st once env ids strategy job t n)
          h).kept
        _ _ k

  run_all_kept :
      (job : Job) (u : Time) (ts : List Time) (n m : Node st)
      → run_all st env ids job ts n ≡ some m
      → HasTime job n u
      → HasTime job m u
  unfolding run_all
  run_all_kept job u [] n m h k = subst (λ n. HasTime job n u) (some-injective _ _ h) k
  run_all_kept job u (t ∷ ts) n m h k =
      elim (Option-cases (schedule_recovery_run st env ids (codes "full_backfill") job t n)) [
        | inl d ↦ absurd (cc (rw (d, run_all) at h))
        | inr (l, d) ↦
            run_all_kept job u ts l m (rw (d, run_all) at h) (time_kept _ job t u n l d k)
      ]

  run_all_complete :
      (job : Job) (ts : List Time) (n m : Node st)
      → run_all st env ids job ts n ≡ some m
      → All (HasTime job m) ts
  unfolding run_all
  run_all_complete job [] n m h = tt
  run_all_complete job (t ∷ ts) n m h =
      elim (Option-cases (schedule_recovery_run st env ids (codes "full_backfill") job t n)) [
        | inl d ↦ absurd (cc (rw (d, run_all) at h))
        | inr (l, d) ↦
            let rest = rw (d, run_all) at h in
            (
              run_all_kept job t ts l m rest (scheduled _ job t n l d),
              run_all_complete job ts l m rest,
            )
      ]

  run_last_complete :
      (job : Job) (ts : List Time) (n m : Node st)
      → run_last st env ids job ts n ≡ some m
      → All (HasTime job m) (last_one (last ts))
  unfolding run_last
  run_last_complete job ts n m h = elim (Option-cases (last ts)) [
    | inl d ↦ rw d tt
    | inr (t, d) ↦ rw d (scheduled _ job t n m (rw (d, run_last) at h), tt)
  ]

  run_bounded_complete :
      (job : Job) (ts : List Time) (n m : Node st)
      → run_bounded st env ids job ts n ≡ some m
      → All (HasTime job m) (in_window job.config.bounded_window (env.clock n.world.asked) ts)
  unfolding run_bounded
  run_bounded_complete job ts n m h = elim (Option-cases job.config.bounded_window) [
    | inl d ↦ rw d (run_all_complete job ts n m (rw (d, run_bounded) at h))
    | inr (w, d) ↦ rw d (run_all_complete job _ _ m (rw (d, run_bounded) at h))
  ]

  by_strategy_complete :
      (s : RecoveryStrategy) (job : Job) (ts : List Time) (n m : Node st)
      → job.config.recovery_strategy ≡ s
      → by_strategy st env ids job ts n ≡ some m
      → All (HasTime job m) (chosen job (env.clock n.world.asked) ts)
  unfolding by_strategy
  by_strategy_complete execute_all job ts n m e h =
      rw e (run_all_complete job ts n m (rw (e, by_strategy) at h))
  by_strategy_complete execute_last job ts n m e h =
      rw e (run_last_complete job ts n m (rw (e, by_strategy) at h))
  by_strategy_complete mark_as_missed job ts n m e h = rw e tt
  by_strategy_complete bounded_window job ts n m e h =
      rw e (run_bounded_complete job ts n m (rw (e, by_strategy) at h))
  by_strategy_complete compressed_catch_up job ts n m e h =
      rw e (run_all_complete job ts n m (rw (e, by_strategy) at h))
  by_strategy_complete other_recovery job ts n m e h =
      rw e (run_all_complete job ts n m (rw (e, by_strategy) at h))

  chosen_none : (job : Job) (now : Time) → chosen job now [] ≡ []
  unfolding last
  chosen_none job now = none_by job.config.recovery_strategy refl
    where
      none_by : (s : RecoveryStrategy) → job.config.recovery_strategy ≡ s → chosen job now [] ≡ []
      none_by execute_all e = rw e refl
      none_by execute_last e = rw e refl
      none_by mark_as_missed e = rw e refl
      none_by bounded_window e = rw e (none_in job.config.bounded_window now)
      none_by compressed_catch_up e = rw e refl
      none_by other_recovery e = rw e refl

  -- A recovery with the chosen times stored at its end, or a panic in an execution while the pool is
  -- not started.
  abbrev pub EndsComplete : Job → List Time → Node st → Option (Node st) → Type 0
  EndsComplete job ts n result =
      ((m : Node st) × (result ≡ some m)
        × Extends st once n m
        × All (HasTime job m) (chosen job (env.clock n.world.asked) ts))
      ⊎ ((result ≡ none) × (n.pool_started ≡ false))

  complete_from :
      (job : Job) (ts : List Time) (n m : Node st)
      → apply_strategy st env ids job ts n ≡ some m
      → All (HasTime job m) (chosen job (env.clock n.world.asked) ts)
  unfolding apply_strategy
  complete_from job [] n m h = rw (chosen_none job (env.clock n.world.asked)) tt
  complete_from job (t ∷ ts) n m h =
      by_strategy_complete job.config.recovery_strategy job (t ∷ ts) n m refl h

  -- Over a storage that creates an occurrence once and refuses a create only of one that it has, a
  -- recovery loses no missed time: the occurrences of all the times that the strategy chooses (all, the last,
  -- those of the window, or none) are stored at its end, the ones that it submitted having been
  -- missing before; unless an execution panics, while the pool is not started.
  pub apply_strategy_complete :
      (job : Job) (ts : List Time) (n : Node st)
      → EndsComplete job ts n (apply_strategy st env ids job ts n)
  apply_strategy_complete job ts n =
      ⊎-elim (apply_strategy-Ends st once env ids job ts n)
        (λ (m, e, x, s). inl (m, e, x, complete_from job ts n m e)) (λ (e, s). inr (e, s))
