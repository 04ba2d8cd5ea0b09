-- ===== src/Metrics/InMemory.antt =====
-- The collector in memory of metrics/metrics.go. A Go map is a function: a missing key reads as zero
-- or as no durations.
use schedule.Base.{ℕ, suc, List, [], ◌∷◌, ◌++◌, Text, codes, text_eq, if◌then◌else◌}
use schedule.Types.{JobStatus, TaskStatus}
use schedule.Ids.{joined}
use schedule.Metrics.{
  Metric, jobs_running, jobs_in_queue, jobs_paused, task_attempts, job_occurrences, recovery_runs,
  job_duration, task_duration,
}

unfoldable pub task_status_text : TaskStatus → Text
task_status_text TaskStatus.pending = codes "Pending"
task_status_text TaskStatus.running = codes "Running"
task_status_text TaskStatus.success = codes "Success"
task_status_text TaskStatus.failed = codes "Failed"
task_status_text TaskStatus.canceled = codes "Canceled"
task_status_text TaskStatus.timeout = codes "Timeout"

unfoldable pub job_status_text : JobStatus → Text
job_status_text JobStatus.pending = codes "Pending"
job_status_text JobStatus.running = codes "Running"
job_status_text JobStatus.completed = codes "Completed"
job_status_text JobStatus.failed = codes "Failed"
job_status_text JobStatus.canceled = codes "Canceled"
job_status_text JobStatus.failed_stale = codes "Failed_Stale"
job_status_text JobStatus.queued = codes "Queued"

pub record InMemoryMetrics : Type 0 where
  pub running : ℕ
  pub in_queue : ℕ
  pub paused : ℕ
  pub attempts : Text → ℕ
  pub occurrences : Text → ℕ
  pub recoveries : Text → ℕ
  pub job_durations : Text → List ℕ
  pub task_durations : Text → List ℕ

unfoldable pub new_in_memory_metrics : InMemoryMetrics
new_in_memory_metrics = record {
  running = 0;
  in_queue = 0;
  paused = 0;
  attempts = λ k. 0;
  occurrences = λ k. 0;
  recoveries = λ k. 0;
  job_durations = λ k. [];
  task_durations = λ k. [];
}

-- `m[key]++`
unfoldable pub increment : Text → (Text → ℕ) → Text → ℕ
increment key m k = if text_eq key k then suc (m k) else m k

-- `m[key] = append(m[key], d)`
unfoldable pub append_at : Text → ℕ → (Text → List ℕ) → Text → List ℕ
append_at key d m k = if text_eq key k then m k ++ d ∷ [] else m k

-- `jobName + ":" + taskName + ":" + status`
unfoldable pub attempts_key : Text → Text → Text → Text
unfolding joined
attempts_key job task status = joined (joined job task) status

-- Each method of the collector that changes it.
unfoldable pub record_metric : Metric → InMemoryMetrics → InMemoryMetrics
record_metric (jobs_running n) m = record m { running = n }
record_metric (jobs_in_queue n) m = record m { in_queue = n }
record_metric (jobs_paused n) m = record m { paused = n }
record_metric (task_attempts job task status) m = record m {
  attempts = increment (attempts_key job task (task_status_text status)) m.attempts;
}
record_metric (job_occurrences job status) m = record m {
  occurrences = increment (joined job (job_status_text status)) m.occurrences;
}
record_metric (recovery_runs job strategy) m = record m {
  recoveries = increment (joined job strategy) m.recoveries;
}
record_metric (job_duration job d) m = record m { job_durations = append_at job d m.job_durations }
record_metric (task_duration job task d) m = record m {
  task_durations = append_at (joined job task) d m.task_durations;
}

-- The calls that a run of the program makes, one after another.
unfoldable pub record_all : List Metric → InMemoryMetrics → InMemoryMetrics
record_all [] m = m
record_all (x ∷ xs) m = record_all xs (record_metric x m)

unfoldable pub get_task_attempts : InMemoryMetrics → Text → Text → Text → ℕ
get_task_attempts m job task status = m.attempts (attempts_key job task status)

unfoldable pub get_jobs_running : InMemoryMetrics → ℕ
get_jobs_running m = m.running

unfoldable pub get_jobs_in_queue : InMemoryMetrics → ℕ
get_jobs_in_queue m = m.in_queue

unfoldable pub get_jobs_paused : InMemoryMetrics → ℕ
get_jobs_paused m = m.paused

unfoldable pub get_job_occurrences : InMemoryMetrics → Text → Text → ℕ
get_job_occurrences m job status = m.occurrences (joined job status)

unfoldable pub get_recovery_runs : InMemoryMetrics → Text → Text → ℕ
get_recovery_runs m job strategy = m.recoveries (joined job strategy)

-- The durations are copied for the caller.
unfoldable pub get_job_durations : InMemoryMetrics → Text → List ℕ
get_job_durations m job = m.job_durations job

unfoldable pub get_task_durations : InMemoryMetrics → Text → Text → List ℕ
get_task_durations m job task = m.task_durations (joined job task)

-- Reset makes every field anew.
unfoldable pub reset : InMemoryMetrics → InMemoryMetrics
reset m = new_in_memory_metrics
