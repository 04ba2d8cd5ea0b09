-- ===== src/Types.antt =====
-- types.go: the enumerations, the configurations and the reports. A Go string type with named
-- constants is a data type with one more constructor for any other text, where the code meets one.
use schedule.Base.{ℕ, Bool, true, false, Option, none, List, [], ◌∷◌, ◌++◌, Text, ℤ}
use schedule.Ticker.Window.{Time}

pub data JobStatus : Type 0 where
  pending running completed failed canceled failed_stale queued : JobStatus

pub data TaskStatus : Type 0 where
  pending running success failed canceled timeout : TaskStatus

pub data TaskExecutionMode : Type 0 where
  sequential parallel other_mode : TaskExecutionMode

pub data FailureStrategy : Type 0 where
  fail_fast continue retry_on_failure other_strategy : FailureStrategy

pub data OverlapPolicy : Type 0 where
  skip allow queue other_policy : OverlapPolicy

pub data RecoveryStrategy : Type 0 where
  execute_all execute_last mark_as_missed : RecoveryStrategy
  bounded_window compressed_catch_up other_recovery : RecoveryStrategy

pub data UpdatePolicy : Type 0 where
  immediate graceful windowed other_update : UpdatePolicy

-- The backoff factor is kept as the bits of its float64; nothing in the model computes with it.
pub record RetryPolicy : Type 0 where
  pub max_retries : ℤ
  pub retry_interval : ℤ
  pub backoff_factor : ℕ

pub record BoundedWindow : Type 0 where
  pub max_occurrences : ℤ
  pub max_duration : ℤ

pub record TaskConfig : Type 0 where
  pub failure_strategy : Option FailureStrategy
  pub retry_policy : Option RetryPolicy
  pub task_timeout : Option ℤ

pub record JobConfig : Type 0 where
  pub task_execution_mode : TaskExecutionMode
  pub failure_strategy : FailureStrategy
  pub execution_timeout : ℤ
  pub overlap_policy : OverlapPolicy
  pub recovery_strategy : RecoveryStrategy
  pub bounded_window : Option BoundedWindow
  pub task_config : TaskConfig

-- The collector of metrics is left out.
pub record SchedulerConfig : Type 0 where
  pub max_concurrent_jobs : ℤ
  pub reaper_interval : ℤ
  pub node_id : Text

-- jobistemer.JobOccurrence
pub record JobOccurrence : Type 0 where
  pub id : Text
  pub job_id : Text
  pub job_version : ℕ
  pub scheduled_time : Time
  pub status : JobStatus
  pub owning_node_id : Text
  pub start_time : Option Time
  pub end_time : Option Time
  pub config : JobConfig
  pub is_recovery_run : Bool
  pub created_at : Time
  pub updated_at : Time

-- jobistemer.ExecutionContext
pub record TaskContext : Type 0 where
  pub occurrence_id : Text
  pub task_run_id : Text
  pub attempt_id : Text

pub record AttemptReport : Type 0 where
  pub attempt_number : ℕ
  pub status : TaskStatus
  pub start_time : Time
  pub end_time : Time
  pub error_message : Text

pub record TaskReport : Type 0 where
  pub task_id : Text
  pub task_name : Text
  pub attempts : List AttemptReport
  pub final_status : TaskStatus

pub data GroupOutcome : Type 0 where
  completed failed canceled : GroupOutcome

pub record ExecutionReport : Type 0 where
  pub occurrence_id : Text
  pub failure_strategy : FailureStrategy
  pub task_reports : List TaskReport
  pub group_outcome : Option GroupOutcome

unfoldable pub new_execution_report : Text → FailureStrategy → ExecutionReport
new_execution_report occurrence_id strategy = record {
  occurrence_id = occurrence_id;
  failure_strategy = strategy;
  task_reports = [];
  group_outcome = none;
}

unfoldable pub add_task_report : ExecutionReport → TaskReport → ExecutionReport
add_task_report r report = record r { task_reports = r.task_reports ++ report ∷ [] }

-- The comparisons with a constant that the program makes.
abbrev pub is_running : JobStatus → Bool
is_running JobStatus.running = true
is_running _ = false

abbrev pub is_pending : JobStatus → Bool
is_pending JobStatus.pending = true
is_pending _ = false

abbrev pub is_queued : JobStatus → Bool
is_queued JobStatus.queued = true
is_queued _ = false

abbrev pub is_failed : TaskStatus → Bool
is_failed TaskStatus.failed = true
is_failed _ = false

abbrev pub is_fail_fast : FailureStrategy → Bool
is_fail_fast fail_fast = true
is_fail_fast _ = false
