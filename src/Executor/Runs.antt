-- ===== src/Executor/Runs.antt =====
-- The groups of tasks of executor/executor.go: which tasks report, and the outcome of the group.

use mathlib.Core.List.{Permᴰ}
use schedule.Base.{
  map, ap, ◌+◌, arith, ℕ, ◌≡◌, refl, ◌⊎◌, inl, inr, Bool, true, false, ◌&&◌, Option, none, some,
  List, [], ◌∷◌, ◌++◌, ◌∙◌, append_assoc, append-nil, Bool-cases, All, Error, task_failed,
  context_error, subst, sym,
}
use schedule.Types.{
  JobStatus, JobOccurrence, TaskReport, GroupOutcome, ExecutionReport, add_task_report,
  new_execution_report, is_failed, is_fail_fast, FailureStrategy,
}
use schedule.Storage.{Storage}
use schedule.Ids.{Formats}
use schedule.Job.{Task, Job, get_effective_config}
use schedule.Executor.{Env, World, retries, execute_task, is_done, ask}
use schedule.Executor.Finishing.{EachOnce, Finishes, Reported, All-Permᴰ, map-Permᴰ, EachOnce-ids}
use schedule.Executor.Groups.{
  Group, concluded, any_failed, run_sequence, run_group, group_outcome, execute_parallel,
  final_status,
}
use schedule.Executor.Attempts.{
  ContextDone, ContextLive, is_done-true, is_done-false, execute_task-IsRetried,
}

-- The number of retries of a task is not negative.
abbrev pub IsRetriable : Job → Task → Type 0
IsRetriable job task = (k : ℕ) × (retries (get_effective_config job task).retry_policy ≡ some k)

abbrev pub aborts : FailureStrategy → TaskReport → Bool
aborts strategy r = is_failed r.final_status && is_fail_fast strategy

-- The outcome of the reports of a group, and of the context, which is asked at a question.
abbrev pub Summed : Env → ℕ → List TaskReport → GroupOutcome → Type 0
Summed env question rs outcome =
    ((env.context_done question ≡ true) × (outcome ≡ GroupOutcome.canceled))
    ⊎ ((env.context_done question ≡ false)
        × ((any_failed rs ≡ true) × (outcome ≡ GroupOutcome.failed)
            ⊎ (any_failed rs ≡ false) × (outcome ≡ GroupOutcome.completed)))

-- The status of an occurrence agrees with the outcome of its group.
abbrev pub Agrees : JobStatus → GroupOutcome → Type 0
Agrees status outcome =
    ((status ≡ JobStatus.completed) × (outcome ≡ GroupOutcome.completed))
    ⊎ ((status ≡ JobStatus.failed)
        × ((outcome ≡ GroupOutcome.failed) ⊎ (outcome ≡ GroupOutcome.canceled)))

module _ (st : Storage) (env : Env) (ids : Formats) where
  -- The reports of tasks that run one after another, from a world on: one for each, up to a task that
  -- aborts or to a context that is done after a task.
  abbrev pub InSequence :
      Job
      → JobOccurrence
      → List Task
      → World st
      → List TaskReport
      → GroupOutcome
      → Option Error
      → Type 0
  InSequence job o [] w [] outcome error = (outcome ≡ GroupOutcome.completed) × (error ≡ none)
  InSequence job o [] w (r ∷ rs) outcome error = ⊥
  InSequence job o (task ∷ tasks) w [] outcome error = ⊥
  InSequence job o (task ∷ tasks) w (r ∷ rs) outcome error =
      (v : World st) × (execute_task st env ids job task o w ≡ some (r, v))
      × (r.task_id ≡ task.id)
      × ((aborts job.config.failure_strategy r ≡ true)
            × (rs ≡ [])
            × (outcome ≡ GroupOutcome.failed)
            × (error ≡ some (task_failed task.name))
          ⊎ ((aborts job.config.failure_strategy r ≡ false)
              × (ContextDone env v.group_cancelled v.asked
                    × (rs ≡ [])
                    × (outcome ≡ GroupOutcome.canceled)
                    × (error ≡ some context_error)
                  ⊎ ContextLive env v.group_cancelled v.asked
                    × InSequence job o tasks (ask st env ids v) rs outcome error)))

  pub InSequence-Agrees :
      (job : Job) (o : JobOccurrence) (tasks : List Task) (w : World st) (rs : List TaskReport)
      (outcome : GroupOutcome) (error : Option Error)
      → InSequence job o tasks w rs outcome error
      → Agrees (final_status error) outcome
  unfolding final_status
  InSequence-Agrees job o [] w [] outcome error (c, e) = rw e (inl (refl, c))
  InSequence-Agrees job o [] w (r ∷ rs) outcome error h = absurd h
  InSequence-Agrees job o (task ∷ tasks) w [] outcome error h = absurd h
  InSequence-Agrees job o (task ∷ tasks) w (r ∷ rs) outcome error (v, p, i, inl (y, q, c, e)) =
      rw e (inr (refl, inl c))
  InSequence-Agrees job o (task ∷ tasks) w (r ∷ rs) outcome error
        (v, p, i, inr (n, inl (d, q, c, e))) =
      rw e (inr (refl, inr c))
  InSequence-Agrees job o (task ∷ tasks) w (r ∷ rs) outcome error (v, p, i, inr (n, inr (l, h))) =
      InSequence-Agrees job o tasks _ rs outcome error h

  -- A group of reports that starts from those of `report`.
  abbrev Sequenced :
      Job
      → JobOccurrence
      → List Task
      → ExecutionReport
      → World st
      → Option (Group × World st)
      → Type 0
  Sequenced job o tasks report w result =
      (g : Group) × (v : World st) × (rs : List TaskReport) × (outcome : GroupOutcome) × (result
        ≡ some (g, v))
      × (g.report.task_reports ≡ report.task_reports ++ rs)
      × (g.report.group_outcome ≡ some outcome)
      × InSequence job o tasks w rs outcome g.error

  pub run_sequence-InSequence :
      (job : Job) (occurrence : JobOccurrence) (tasks : List Task) (report : ExecutionReport)
      (w : World st)
      → All (IsRetriable job) tasks
      → Sequenced job occurrence tasks report w
          (run_sequence st env ids job occurrence tasks report w)
  unfolding run_sequence concluded add_task_report
  run_sequence-InSequence job occurrence [] report w all =
      (_, _, [], _, refl, sym (append-nil report.task_reports), refl, (refl, refl))
  run_sequence-InSequence job occurrence (task ∷ tasks) report w ((k, h), all) =
      let (r, v, q, i, _, _) = execute_task-IsRetried st env ids job task occurrence w k h in
      rw (q, run_sequence)
        (elim (Bool-cases (aborts job.config.failure_strategy r)) [
          | inl y ↦ rw y (_, _, r ∷ [], _, refl, refl, refl, (v, q, i, inl (y, refl, refl, refl)))
          | inr n ↦ rw n (elim (Bool-cases (is_done st env ids v)) [
            | inl d ↦ rw d (
              _,
              _,
              r ∷ [],
              _,
              refl,
              refl,
              refl,
              (v, q, i, inr (n, inl (is_done-true st env ids v d, refl, refl, refl))),
            )
            | inr e ↦
                let (g, u, rs, o, p, ts, go, s) =
                  run_sequence-InSequence job occurrence tasks (add_task_report report r)
                    (ask st env ids v) all in
                rw e (
                  g,
                  u,
                  r ∷ rs,
                  o,
                  p,
                  ts ∙ append_assoc report.task_reports (r ∷ []) rs,
                  go,
                  (v, q, i, inr (n, inr (is_done-false st env ids v e, s))),
                )
          ])
        ])

  run_group-EachOnce :
      (job : Job) (occurrence : JobOccurrence) (tasks : List Task) (report : ExecutionReport)
      (w : World st)
      → All (IsRetriable job) tasks
      → (g : ExecutionReport) × (v : World st) × (rs : List TaskReport) × (run_group st env ids job
            occurrence tasks report w
          ≡ some (g, v))
        × (g.task_reports ≡ report.task_reports ++ rs)
        × EachOnce tasks rs
  unfolding run_group add_task_report
  run_group-EachOnce job occurrence [] report w all =
      (_, _, [], refl, sym (append-nil report.task_reports), tt)
  run_group-EachOnce job occurrence (task ∷ tasks) report w ((k, h), all) =
      let (r, v, q, i, _, _) = execute_task-IsRetried st env ids job task occurrence w k h in
      rw (q, run_group)
        (let (g, u, rs, p, ts, s) =
            run_group-EachOnce job occurrence tasks (add_task_report report r) _ all in
          (g, u, r ∷ rs, p, ts ∙ append_assoc report.task_reports (r ∷ []) rs, (i, s)))

  group_outcome_cases :
      (g : ExecutionReport) (question : ℕ)
      → Summed env question g.task_reports (group_outcome g (env.context_done question))
  unfolding group_outcome
  group_outcome_cases g question = ground arith

  pub execute_parallel-Reported :
      (job : Job) (occurrence : JobOccurrence) (w : World st)
      → Finishes env
      → All (IsRetriable job) job.tasks
      → (g : Group) × (v : World st) × (outcome : GroupOutcome) × (question : ℕ) × (execute_parallel
            st env ids job occurrence w
          ≡ some (g, v))
        × (v.asked ≡ question + 1)
        × (g.report.group_outcome ≡ some outcome)
        × Reported job.tasks g.report.task_reports
        × Summed env question g.report.task_reports outcome
        × (g.error ≡ none)
  unfolding execute_parallel new_execution_report concluded ask
  execute_parallel-Reported job occurrence w finishes all =
      let order = finishes job.tasks in
      let (g, v, rs, p, ts, each) =
        run_group-EachOnce job occurrence (env.finishing job.tasks)
          (new_execution_report occurrence.id job.config.failure_strategy) w
          (All-Permᴰ (IsRetriable job) order all) in
      let ids_of = λ (l : List TaskReport). map (λ (r : TaskReport). r.task_id) l in
      let same = ap ids_of ts ∙ EachOnce-ids (env.finishing job.tasks) rs each in
      rw (execute_parallel, p)
        (
          _,
          _,
          _,
          v.asked,
          refl,
          refl,
          refl,
          subst (λ l. Permᴰ l (map (λ (t : Task). t.id) job.tasks)) (sym same) (map-Permᴰ order),
          group_outcome_cases g v.asked,
          refl,
        )
