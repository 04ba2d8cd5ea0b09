-- ===== src/Executor/Groups.antt =====
-- executor/executor.go: the tasks of an occurrence in sequence or in parallel, and the occurrence as
-- a whole. The tasks of a parallel group run one after another in the order in which they finish.
use schedule.Base.{
  ℕ, ◌+◌, ◌-◌, Bool, false, ◌&&◌, ◌||◌, Option, none, some, List, [], ◌∷◌, ◌++◌, Result, ok, err,
  Error, task_failed, context_error, after, if◌then◌else◌,
}
use schedule.Ticker.Window.{Time}
use schedule.Types.{
  JobStatus, JobOccurrence, TaskReport, GroupOutcome, ExecutionReport, TaskExecutionMode,
  sequential, parallel, other_mode, new_execution_report, add_task_report, is_failed, is_fail_fast,
  FailureStrategy,
}
use schedule.Storage.{Storage}
use schedule.Storage
use schedule.Ids.{Formats}
use schedule.Job.{Task, Job, get_effective_config}
use schedule.Metrics.{job_duration, job_occurrences}
use schedule.Executor.{Env, World, Hook, on_start, on_complete, execute_task, is_done, ask}

-- A report with the error beside it, and an occurrence at the end of its execution.
pub record Group : Type 0 where
  pub report : ExecutionReport
  pub error : Option Error

pub record Executed : Type 0 where
  pub occurrence : JobOccurrence
  pub report : Option ExecutionReport
  pub error : Option Error

unfoldable pub concluded : ExecutionReport → GroupOutcome → Option Error → Group
concluded report outcome error = record {
  report = record report { group_outcome = some outcome };
  error = error;
}

-- The strategy of a task in a parallel group: its own, then the job's.
unfoldable pub group_strategy : Job → Task → FailureStrategy
group_strategy job task = elim ((get_effective_config job task).failure_strategy) [
  | none ↦ job.config.failure_strategy
  | some s ↦ s
]

unfoldable pub any_failed : List TaskReport → Bool
any_failed [] = false
any_failed (r ∷ rs) = is_failed r.final_status || any_failed rs

-- `updateOccurrenceStatus`: the stored record has no configuration.
unfoldable pub stored_status : JobOccurrence → Time → Storage.JobOccurrence
stored_status o now = record {
  id = o.id;
  job_id = o.job_id;
  job_version = o.job_version;
  scheduled_time = o.scheduled_time;
  status = o.status;
  owning_node_id = o.owning_node_id;
  start_time = o.start_time;
  end_time = o.end_time;
  config = [];
  is_recovery_run = o.is_recovery_run;
  created_at = o.created_at;
  updated_at = now;
}

-- The outcome of a group; the error is nil whatever it is.
unfoldable pub group_outcome : ExecutionReport → Bool → GroupOutcome
unfolding any_failed
group_outcome report done =
    if done
    then GroupOutcome.canceled
    else (if any_failed report.task_reports then GroupOutcome.failed else GroupOutcome.completed)

unfoldable pub final_status : Option Error → JobStatus
final_status none = JobStatus.completed
final_status (some e) = JobStatus.failed

module _ (st : Storage) (env : Env) (ids : Formats) where
  -- The loop of `executeSequential` over the tasks that are left.
  unfoldable pub run_sequence :
      Job → JobOccurrence → List Task → ExecutionReport → World st → Option (Group × World st)
  unfolding is_done ask concluded
  run_sequence job occurrence [] report w = some (concluded report GroupOutcome.completed none, w)
  run_sequence job occurrence (task ∷ tasks) report w =
      elim (execute_task st env ids job task occurrence w) [
        | none ↦ none
        | some (r, v) ↦
            let report' = add_task_report report r in
            if is_failed r.final_status && is_fail_fast job.config.failure_strategy
            then some (concluded report' GroupOutcome.failed (some (task_failed task.name)), v)
            else (if is_done st env ids v
                then some
                    (concluded report' GroupOutcome.canceled (some context_error), ask st env ids v)
                else run_sequence job occurrence tasks report' (ask st env ids v))
      ]

  unfoldable pub execute_sequential : Job → JobOccurrence → World st → Option (Group × World st)
  execute_sequential job occurrence w =
      run_sequence job occurrence job.tasks
        (new_execution_report occurrence.id job.config.failure_strategy) w

  -- The goroutines of a group, in the order in which they finish.
  unfoldable pub run_group :
      Job
      → JobOccurrence
      → List Task
      → ExecutionReport
      → World st
      → Option (ExecutionReport × World st)
  unfolding group_strategy
  run_group job occurrence [] report w = some (report, w)
  run_group job occurrence (task ∷ tasks) report w =
      elim (execute_task st env ids job task occurrence w) [
        | none ↦ none
        | some (r, v) ↦
            let cancels = is_failed r.final_status && is_fail_fast (group_strategy job task) in
            run_group job occurrence tasks (add_task_report report r)
              (record v { group_cancelled = v.group_cancelled || cancels })
      ]

  unfoldable pub execute_parallel : Job → JobOccurrence → World st → Option (Group × World st)
  unfolding group_outcome ask concluded
  execute_parallel job occurrence w =
      elim (run_group job occurrence (env.finishing job.tasks)
        (new_execution_report occurrence.id job.config.failure_strategy) w) [
          | none ↦ none
          | some (report, v) ↦ some (
            concluded report (group_outcome report (env.context_done v.asked)) none,
            record (ask st env ids v) { group_cancelled = w.group_cancelled },
          )
        ]

  unfoldable pub execute_tasks :
      TaskExecutionMode → Job → JobOccurrence → World st → Option (Group × World st)
  execute_tasks sequential job occurrence w = execute_sequential job occurrence w
  execute_tasks parallel job occurrence w = execute_parallel job occurrence w
  execute_tasks other_mode job occurrence w = execute_sequential job occurrence w

  unfoldable pub update_occurrence_status : JobOccurrence → World st → Result st.State
  unfolding stored_status
  update_occurrence_status occurrence w =
      let now = env.clock w.asked in
      st.update_job_occurrence (env.clock (w.asked + 1)) (stored_status occurrence now) w.state

  unfoldable pub call_hook : Option ℕ → (ℕ → Hook) → World st → World st
  call_hook none make w = w
  call_hook (some h) make w = record w { hooks = w.hooks ++ make h ∷ [] }

  -- What follows the tasks: the final status, whose write may fail unseen, the metrics and the hook.
  unfoldable pub conclude : Job → JobOccurrence → Time → Group → World st → Executed × World st
  unfolding call_hook final_status
  conclude job occurrence start g w =
      let end = env.clock w.asked in
      let ended = record occurrence { end_time = some end; status = final_status g.error } in
      let v = ask st env ids w in
      let u : World st = record v {
        state = after v.state (update_occurrence_status ended v);
        asked = v.asked + 2;
        metrics =
            v.metrics
            ++ job_duration job.name (end - start) ∷ job_occurrences job.name ended.status ∷ [];
      } in
      (
        record { occurrence = ended; report = some g.report; error = g.error },
        call_hook job.on_complete (λ h. on_complete h (some g.report)) u,
      )

  -- The occurrence as the execution starts, and the world once that is stored.
  unfoldable pub running_from : JobOccurrence → Time → JobOccurrence
  running_from occurrence start = record occurrence {
    status = JobStatus.running;
    start_time = some start;
  }

  unfoldable pub begun : Job → JobOccurrence → World st → st.State → World st
  unfolding ask call_hook
  begun job running w s =
      let v = ask st env ids w in
      call_hook job.on_start (λ h. on_start h running) (record v { state = s; asked = v.asked + 2 })

  unfoldable pub execute_job_occurrence :
      Job → JobOccurrence → World st → Option (Executed × World st)
  execute_job_occurrence job occurrence w =
      let start = env.clock w.asked in
      let running = running_from occurrence start in
      let v = ask st env ids w in
      elim (update_occurrence_status running v) [
        | err e ↦ some (
          record { occurrence = running; report = none; error = some e },
          record v { asked = v.asked + 2 },
        )
        | ok s ↦
            elim (execute_tasks job.config.task_execution_mode job running
              (begun job running w s)) [
                | none ↦ none
                | some (g, t) ↦ some (conclude job running start g t)
              ]
      ]
