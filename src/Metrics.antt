-- ===== src/Metrics.antt =====
-- metrics/metrics.go: the collector of metrics. A call of one of its counting, timing and setting
-- methods is a value, which the collector in memory applies.
pub mod InMemory
pub mod Counts
pub mod Steps
pub mod Reads
use schedule.Base.{ℕ, Text}
use schedule.Types.{JobStatus, TaskStatus}

pub data Metric : Type 0 where
  jobs_running jobs_in_queue jobs_paused : ℕ → Metric
  task_attempts : Text → Text → TaskStatus → Metric
  job_occurrences : Text → JobStatus → Metric
  recovery_runs : Text → Text → Metric
  job_duration : Text → ℕ → Metric
  task_duration : Text → Text → ℕ → Metric
