-- ===== src/Executor.antt =====
-- executor/executor.go: how an occurrence of a job runs its tasks, with retries. What the code meets
-- outside comes from an environment, asked by a count that every question raises: the clock, whether
-- the context is done, what a task's function returns. A panic of the Go runtime is `none`.
pub mod Groups
pub mod Attempts
pub mod Finishing
pub mod Runs
pub mod Outcomes
pub mod Kept
pub mod Reported
use schedule.Base.{
  ℕ, zero, suc, ◌+◌, ◌-◌, ◌≡◌, Bool, true, false, ◌&&◌, ◌||◌, Option, none, some, List, [], ◌∷◌,
  ◌++◌, Text, codes, ℤ, pos, negsuc, Result, ok, err, Error, task_failed, context_error, after,
  length, if◌then◌else◌,
}
use schedule.Ticker.Window.{Time}
use schedule.Types.{
  JobStatus, TaskStatus, timeout, TaskConfig, RetryPolicy, JobOccurrence, TaskContext,
  AttemptReport, TaskReport, GroupOutcome, ExecutionReport, TaskExecutionMode, sequential, parallel,
  other_mode, new_execution_report, add_task_report, is_failed, is_fail_fast, FailureStrategy,
}
use schedule.Storage.{Storage, TaskRun, ExecutionAttempt}
use schedule.Storage
use schedule.Ids.{Formats, generate_task_run_id, generate_execution_attempt_id}
use schedule.Job.{Task, Job, get_effective_config}
use schedule.Metrics.{Metric, task_attempts, task_duration, job_duration, job_occurrences}

-- What a task's function returned, and whether its context's deadline had passed then.
pub record Returned : Type 0 where
  pub error : Option Text
  pub deadline_exceeded : Bool

pub record Env : Type 0 where
  pub clock : ℕ → Time
  pub context_done : ℕ → Bool
  -- a task's function, its context, its timeout
  pub call : ℕ → TaskContext → ℤ → ℕ → Returned
  -- the order in which the goroutines of a parallel group finish; a theorem about all the tasks of a group
  -- asks that it is an order of them (Finishes)
  pub finishing : List Task → List Task

-- A call of a hook of the job.
pub data Hook : Type 0 where
  on_start : ℕ → JobOccurrence → Hook
  on_complete : ℕ → Option ExecutionReport → Hook

pub record World (st : Storage) : Type 0 where
  pub state : st.State
  pub asked : ℕ
  -- a task of a parallel group has cancelled the group's context
  pub group_cancelled : Bool
  pub metrics : List Metric
  pub hooks : List Hook

default_timeout : Option ℤ → ℤ
default_timeout none = pos 300000000000
default_timeout (some t) = t

-- The status and the message of an attempt, from what the function returned.
unfoldable pub attempt_status : Returned → TaskStatus
attempt_status r = elim r.error [
  | none ↦ TaskStatus.success
  | some e ↦ if r.deadline_exceeded then timeout else TaskStatus.failed
]

attempt_message : Returned → Text
attempt_message r = elim r.error [
  | none ↦ []
  | some e ↦ if r.deadline_exceeded then codes "task execution timeout" else e
]

abbrev pub is_success : TaskStatus → Bool
is_success TaskStatus.success = true
is_success _ = false

-- How often a task is tried again; a negative number leaves no attempt and a nil error.
unfoldable pub retries : Option RetryPolicy → Option ℕ
retries none = some 0
retries (some p) = elim p.max_retries [ pos n ↦ some n | negsuc n ↦ none ]

module _ (st : Storage) (env : Env) (ids : Formats) where
  unfoldable pub execute_attempt :
      Job → Task → TaskRun → ℕ → TaskConfig → World st → AttemptReport × World st
  unfolding default_timeout attempt_status attempt_message
  execute_attempt job task run number config w =
      let attempt_id = generate_execution_attempt_id ids run.id number in
      let start = env.clock w.asked in
      let attempt : ExecutionAttempt = record {
        id = attempt_id;
        task_run_id = run.id;
        attempt_number = number;
        status = TaskStatus.running;
        start_time = start;
        end_time = none;
        error_message = [];
        created_at = env.clock (w.asked + 1);
      } in
      let created = after w.state (st.create_execution_attempt attempt w.state) in
      let context : TaskContext = record {
        occurrence_id = run.occurrence_id;
        task_run_id = run.id;
        attempt_id = attempt_id;
      } in
      let r = env.call task.fn context (default_timeout config.task_timeout) (w.asked + 2) in
      let end = env.clock (w.asked + 3) in
      let ended : ExecutionAttempt = record attempt {
        end_time = some end;
        status = attempt_status r;
        error_message = attempt_message r;
      } in
      (
        record {
          attempt_number = number;
          status = attempt_status r;
          start_time = start;
          end_time = end;
          error_message = attempt_message r;
        },
        record w {
          state = after created (st.update_execution_attempt ended created);
          asked = w.asked + 4;
          metrics =
              w.metrics
              ++ task_attempts job.name task.name (attempt_status r)
                ∷ task_duration job.name task.name (end - start)
                ∷ [];
        },
      )

  -- `<-ctx.Done()` is ready; a group's context is done with its parent's too.
  unfoldable pub is_done : World st → Bool
  is_done w = env.context_done w.asked || w.group_cancelled

  unfoldable pub ask : World st → World st
  ask w = record w { asked = w.asked + 1 }

  -- The loop over attempts, with the retries that are left, and the final status of the task.
  unfoldable pub try_attempts :
      Job
      → Task
      → TaskRun
      → TaskConfig
      → ℕ
      → ℕ
      → List AttemptReport
      → World st
      → TaskStatus × List AttemptReport × World st
  unfolding is_done ask
  try_attempts job task run config zero number done w =
      let (r, w') = execute_attempt job task run number config w in
      (if is_success r.status then TaskStatus.success else TaskStatus.failed, done ++ r ∷ [], w')
  try_attempts job task run config (suc left) number done w =
      let (r, w') = execute_attempt job task run number config w in
      let again = try_attempts job task run config left (suc number) (done ++ r ∷ []) (ask w') in
      if is_success r.status
      then (TaskStatus.success, done ++ r ∷ [], w')
      else (if is_done w' then (TaskStatus.canceled, done ++ r ∷ [], ask w') else again)

  last_message : List AttemptReport → Text
  last_message [] = []
  last_message (r ∷ []) = r.error_message
  last_message (r ∷ s ∷ rs) = last_message (s ∷ rs)

  -- The run record at the end; its count and message are set only if the task failed.
  ended_run : TaskRun → TaskStatus → List AttemptReport → Time → TaskRun
  ended_run run status attempts now =
      if is_failed status
      then record run {
        status = status;
        retry_count = length attempts;
        error_message = last_message attempts;
        end_time = some now;
      }
      else record run { status = status; end_time = some now }

  unfoldable pub new_run : Task → JobOccurrence → World st → TaskRun
  new_run task occurrence w = record {
    id = generate_task_run_id ids occurrence.id task.id;
    occurrence_id = occurrence.id;
    task_id = task.id;
    status = TaskStatus.pending;
    retry_count = 0;
    start_time = none;
    end_time = none;
    error_message = [];
    created_at = env.clock w.asked;
    updated_at = 0;
  }

  unfoldable pub execute_task :
      Job → Task → JobOccurrence → World st → Option (TaskReport × World st)
  unfolding ask new_run ended_run last_message
  execute_task job task occurrence w =
      let config = get_effective_config job task in
      let run = new_run task occurrence w in
      let w' = record (ask w) { state = after w.state (st.create_task_run run w.state) } in
      elim (retries config.retry_policy) [
        | none ↦ none
        | some left ↦
            let (status, attempts, v) = try_attempts job task run config left 0 [] w' in
            let now = env.clock v.asked in
            let ended = ended_run run status attempts now in
            some (
              record {
                task_id = task.id;
                task_name = task.name;
                attempts = attempts;
                final_status = status;
              },
              record (ask v) {
                state = after v.state (st.update_task_run (env.clock (v.asked + 1)) ended v.state);
                asked = v.asked + 2;
              },
            )
      ]
