-- ===== src/Storage.antt =====
-- storage/storage.go: the records that are stored and the interface Storage. Versions and counts are
-- natural numbers without a bound; `now` is the reading of `time.Now()` that an update stores.
use schedule.Base.{ℕ, Bool, Option, List, Text, Result}
use schedule.Ticker.Window.{Time}
use schedule.Types.{JobStatus, TaskStatus}

pub record Job : Type 0 where
  pub id : Text
  pub name : Text
  pub schedule_type : Text
  pub schedule_config : Text
  pub config : Text
  pub version : ℕ
  pub active : Bool
  pub paused : Bool
  pub last_run_time : Option Time
  pub created_at : Time
  pub updated_at : Time

pub record Task : Type 0 where
  pub id : Text
  pub job_id : Text
  pub name : Text
  pub config : Text
  pub order : ℕ
  pub created_at : Time
  pub updated_at : Time

pub record JobOccurrence : Type 0 where
  pub id : Text
  pub job_id : Text
  pub job_version : ℕ
  pub scheduled_time : Time
  pub status : JobStatus
  pub owning_node_id : Text
  pub start_time : Option Time
  pub end_time : Option Time
  pub config : Text
  pub is_recovery_run : Bool
  pub created_at : Time
  pub updated_at : Time

pub record TaskRun : Type 0 where
  pub id : Text
  pub occurrence_id : Text
  pub task_id : Text
  pub status : TaskStatus
  pub retry_count : ℕ
  pub start_time : Option Time
  pub end_time : Option Time
  pub error_message : Text
  pub created_at : Time
  pub updated_at : Time

pub record ExecutionAttempt : Type 0 where
  pub id : Text
  pub task_run_id : Text
  pub attempt_number : ℕ
  pub status : TaskStatus
  pub start_time : Time
  pub end_time : Option Time
  pub error_message : Text
  pub created_at : Time

-- A write returns the new state, or an error and no new state; a read returns what it found, and
-- `none` is a nil pointer with a nil error.
pub record Storage : Type 1 where
  pub State : Type 0
  pub create_job : Job → State → Result State
  pub get_job : Text → State → Result (Option Job)
  pub update_job : Time → Job → State → Result State
  pub delete_job : Text → State → Result State
  pub list_jobs : State → Result (List Job)
  pub create_task : Task → State → Result State
  pub get_task : Text → State → Result (Option Task)
  pub update_task : Time → Task → State → Result State
  pub delete_task : Text → State → Result State
  pub list_tasks_by_job_id : Text → State → Result (List Task)
  pub create_job_occurrence : JobOccurrence → State → Result State
  pub get_job_occurrence : Text → State → Result (Option JobOccurrence)
  pub update_job_occurrence : Time → JobOccurrence → State → Result State
  pub delete_job_occurrence : Text → State → Result State
  pub list_running_occurrences : State → Result (List JobOccurrence)
  pub list_stale_occurrences : Time → ℕ → State → Result (List JobOccurrence)
  pub list_queued_occurrences_by_job_id : Text → State → Result (List JobOccurrence)
  pub list_pending_occurrences : Text → State → Result (List JobOccurrence)
  pub create_task_run : TaskRun → State → Result State
  pub get_task_run : Text → State → Result (Option TaskRun)
  pub update_task_run : Time → TaskRun → State → Result State
  pub delete_task_run : Text → State → Result State
  pub list_task_runs_by_occurrence_id : Text → State → Result (List TaskRun)
  pub create_execution_attempt : ExecutionAttempt → State → Result State
  pub get_execution_attempt : Text → State → Result (Option ExecutionAttempt)
  pub update_execution_attempt : ExecutionAttempt → State → Result State
  pub list_execution_attempts_by_task_run_id : Text → State → Result (List ExecutionAttempt)
