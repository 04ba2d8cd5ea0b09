-- ===== src/Executor/Kept.antt =====
-- What an execution of executor/executor.go leaves as it is: every property of the stored state that
-- the five writes of the executor keep.
use schedule.Base.{
  ℕ, zero, suc, ◌≡◌, refl, Bool, true, false, Option, none, some, List, [], ◌∷◌, ◌++◌, Result, ok,
  err, task_failed, context_error, ◌&&◌, if◌then◌else◌, Bool-cases, Option-cases, Result-cases,
  after, inl, inr,
}
use schedule.Ticker.Window.{Time}
use schedule.Types.{
  JobOccurrence, AttemptReport, GroupOutcome, add_task_report, is_failed, is_fail_fast,
  ExecutionReport, TaskConfig, TaskExecutionMode, sequential, parallel, other_mode,
}
use schedule.Storage.{Storage, TaskRun, ExecutionAttempt}
use schedule.Storage
use schedule.Ids.{Formats}
use schedule.Job.{Task, Job, get_effective_config}
use schedule.Executor.{
  Env, World, is_success, is_done, ask, execute_attempt, try_attempts, execute_task, retries,
}
use schedule.Executor.Groups.{
  Group, concluded, run_sequence, execute_sequential, run_group, execute_parallel, execute_tasks,
  update_occurrence_status, execute_job_occurrence, conclude, running_from, begun, call_hook,
}

-- The writes of the executor keep P.
pub record Keeps (st : Storage) (P : st.State → Type 0) : Type 0 where
  pub occurrence_kept :
      (now : Time) (o : Storage.JobOccurrence) (s t : st.State)
      → st.update_job_occurrence now o s ≡ ok t
      → P s
      → P t
  pub created_run_kept : (r : TaskRun) (s t : st.State) → st.create_task_run r s ≡ ok t → P s → P t
  pub updated_run_kept :
      (now : Time) (r : TaskRun) (s t : st.State) → st.update_task_run now r s ≡ ok t → P s → P t
  pub created_attempt_kept :
      (a : ExecutionAttempt) (s t : st.State) → st.create_execution_attempt a s ≡ ok t → P s → P t
  pub updated_attempt_kept :
      (a : ExecutionAttempt) (s t : st.State) → st.update_execution_attempt a s ≡ ok t → P s → P t

pub kept_after :
    {S : Type 0} (P : S → Type 0) (s : S) (r : Result S)
    → ((t : S) → r ≡ ok t → P s → P t)
    → P s
    → P (after s r)
kept_after P s (ok t) k p = k t refl p
kept_after P s (err e) k p = p

module _ (st : Storage) (env : Env) (ids : Formats) (P : st.State → Type 0)
    (keeps : Keeps st P) where
  execute_attempt_kept :
      (job : Job) (task : Task) (run : TaskRun) (n : ℕ) (config : TaskConfig) (w : World st)
      → P w.state
      → P (execute_attempt st env ids job task run n config w).1.state
  unfolding execute_attempt
  execute_attempt_kept job task run n config w p =
      kept_after P _ _ (keeps.updated_attempt_kept _ _)
        (kept_after P _ _ (keeps.created_attempt_kept _ _) p)

  try_attempts_kept :
      (job : Job) (task : Task) (run : TaskRun) (config : TaskConfig) (k n : ℕ)
      (done : List AttemptReport) (w : World st)
      → P w.state
      → P (try_attempts st env ids job task run config k n done w).2.state
  unfolding try_attempts
  try_attempts_kept job task run config zero n done w p =
      execute_attempt_kept job task run n config w p
  try_attempts_kept job task run config (suc k) n done w p =
      let (r, v) = execute_attempt st env ids job task run n config w in
      let q = execute_attempt_kept job task run n config w p in
      elim (Bool-cases (is_success r.status)) [
        | inl y ↦ rw (y, try_attempts) q
        | inr f ↦ elim (Bool-cases (is_done st env ids v)) [
          | inl d ↦ rw (f, d, try_attempts, ask) q
          | inr g ↦
              rw (f, g, try_attempts)
                (try_attempts_kept job task run config k (suc n) (done ++ r ∷ []) (ask st env ids v)
                  (unfold ask in q))
        ]
      ]

  -- P holds after a computation that may panic.
  abbrev pub Holds : {X : Type 0} → Option (X × World st) → Type 0
  Holds none = Unit
  Holds (some (x, w)) = P w.state

  Holds-then :
      {X Y : Type 0} (m : Option (X × World st)) (f : X → World st → Option (Y × World st))
      → Holds m
      → ((x : X) (w : World st) → P w.state → Holds (f x w))
      → Holds (elim m [ none ↦ none | some (x, w) ↦ f x w ])
  Holds-then none f h k = tt
  Holds-then (some (x, w)) f h k = k x w h

  Holds-if :
      {X : Type 0} (b : Bool) (m n : Option (X × World st))
      → Holds m
      → Holds n
      → Holds (if b then m else n)
  Holds-if true m n h k = h
  Holds-if false m n h k = k

  pub execute_task_kept :
      (job : Job) (task : Task) (occurrence : JobOccurrence) (w : World st)
      → P w.state
      → Holds (execute_task st env ids job task occurrence w)
  unfolding execute_task
  execute_task_kept job task occurrence w p =
      elim (Option-cases (retries (get_effective_config job task).retry_policy)) [
        | inl n ↦ rw (n, execute_task) tt
        | inr (k, e) ↦
            rw (e, execute_task)
              (kept_after P _ _ (keeps.updated_run_kept _ _ _) (
                try_attempts_kept job task _ _ k 0 [] _
                  (kept_after P _ _ (keeps.created_run_kept _ _) p)))
      ]

  run_sequence_kept :
      (job : Job) (occurrence : JobOccurrence) (tasks : List Task) (report : ExecutionReport)
      (w : World st)
      → P w.state
      → Holds (run_sequence st env ids job occurrence tasks report w)
  unfolding run_sequence
  run_sequence_kept job occurrence [] report w p = p
  run_sequence_kept job occurrence (task ∷ tasks) report w p =
      Holds-then _ _ (execute_task_kept job task occurrence w p) (λ r v q.
        let added = add_task_report report r in
        Holds-if (is_failed r.final_status && is_fail_fast job.config.failure_strategy)
          (some (concluded added GroupOutcome.failed (some (task_failed task.name)), v)) _ q
          (Holds-if (is_done st env ids v)
            (some (concluded added GroupOutcome.canceled (some context_error), ask st env ids v)) _
            (unfold ask in q)
            (run_sequence_kept job occurrence tasks added (ask st env ids v) (unfold ask in q))))

  run_group_kept :
      (job : Job) (occurrence : JobOccurrence) (tasks : List Task) (report : ExecutionReport)
      (w : World st)
      → P w.state
      → Holds (run_group st env ids job occurrence tasks report w)
  unfolding run_group
  run_group_kept job occurrence [] report w p = p
  run_group_kept job occurrence (task ∷ tasks) report w p =
      Holds-then _ _ (execute_task_kept job task occurrence w p)
        (λ r v q. run_group_kept job occurrence tasks _ _ q)

  execute_tasks_kept :
      (mode : TaskExecutionMode) (job : Job) (occurrence : JobOccurrence) (w : World st)
      → P w.state
      → Holds (execute_tasks st env ids mode job occurrence w)
  unfolding execute_tasks execute_sequential execute_parallel ask
  execute_tasks_kept sequential job occurrence w p =
      run_sequence_kept job occurrence job.tasks _ w p
  execute_tasks_kept parallel job occurrence w p =
      Holds-then _ _ (run_group_kept job occurrence (env.finishing job.tasks) _ w p) (λ r v q. q)
  execute_tasks_kept other_mode job occurrence w p =
      run_sequence_kept job occurrence job.tasks _ w p

  begun_kept :
      (job : Job) (o : JobOccurrence) (w : World st) (s : st.State)
      → P s
      → P (begun st env ids job o w s).state
  unfolding begun call_hook
  begun_kept job o w s p = elim (Option-cases job.on_start) [
    | inl n ↦ rw (n, begun) p
    | inr (h, e) ↦ rw (e, begun) p
  ]

  conclude_kept :
      (job : Job) (o : JobOccurrence) (start : Time) (g : Group) (w : World st)
      → P w.state
      → P (conclude st env ids job o start g w).1.state
  unfolding conclude call_hook ask update_occurrence_status
  conclude_kept job o start g w p =
      let q = kept_after P _ _ (keeps.occurrence_kept _ _ _) p in
      elim (Option-cases job.on_complete) [
        | inl n ↦ rw (n, conclude) q
        | inr (h, e) ↦ rw (e, conclude) q
      ]

  started_kept :
      (job : Job) (occurrence : JobOccurrence) (w : World st) (s : st.State)
      → P w.state
      → update_occurrence_status st env ids
          (running_from st env ids occurrence (env.clock w.asked))
          (ask st env ids w)
        ≡ ok s
      → P s
  unfolding update_occurrence_status ask
  started_kept job occurrence w s p u = keeps.occurrence_kept _ _ w.state s u p

  pub execute_job_occurrence_kept :
      (job : Job) (occurrence : JobOccurrence) (w : World st)
      → P w.state
      → Holds (execute_job_occurrence st env ids job occurrence w)
  unfolding execute_job_occurrence
  execute_job_occurrence_kept job occurrence w p =
      let running = running_from st env ids occurrence (env.clock w.asked) in
      elim (Result-cases (update_occurrence_status st env ids running (ask st env ids w))) [
        | inl (s, u) ↦
            let kept : P s = started_kept job occurrence w s p u in
            let m =
              execute_tasks st env ids job.config.task_execution_mode job running
                (begun st env ids job running w s) in
            rw (execute_job_occurrence, u)
              (Holds-then m (λ g v. some (conclude st env ids job running (env.clock w.asked) g v))
                (execute_tasks_kept job.config.task_execution_mode job running _
                  (begun_kept job running w s kept))
                (λ g v q. conclude_kept job running (env.clock w.asked) g v q))
        | inr (e, u) ↦ rw (execute_job_occurrence, u) (unfold ask in p)
      ]
