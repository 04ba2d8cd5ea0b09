-- ===== src/Metrics/Reads.antt =====
-- What each reading of the collector of metrics/metrics.go reports after a sequence of calls.
use schedule.Base.{◌+◌, ◌≡◌, List, ◌++◌, All, Text}
use schedule.Types.{JobStatus, TaskStatus}
use schedule.Metrics.{Metric}
use schedule.Metrics.InMemory.{
  InMemoryMetrics, task_status_text, job_status_text, record_all, get_task_attempts,
  get_jobs_running, get_jobs_in_queue, get_jobs_paused, get_job_occurrences, get_recovery_runs,
  get_job_durations, get_task_durations,
}
use schedule.Metrics.Counts.{IsPlain, HasPlainNames, count_attempts, get_task_attempts-record_all}
use schedule.Metrics.Steps.{
  running_set, queue_set, paused_set, occurrence_of, recovery_of, job_time, task_time, total,
  gathered, last_set, occurrence_step, recovery_step, job_time_step, task_time_step, running_step,
  queue_step, paused_step, read_total, read_gathered, read_last,
}

-- The readings of `m'`, which had those of `m` before the calls `xs`.
pub record ReadsAs (xs : List Metric) (m m' : InMemoryMetrics) (j t strategy : Text)
    (ts : TaskStatus) (js : JobStatus) : Type 0 where
  pub running : get_jobs_running m' ≡ last_set running_set (get_jobs_running m) xs
  pub in_queue : get_jobs_in_queue m' ≡ last_set queue_set (get_jobs_in_queue m) xs
  pub paused : get_jobs_paused m' ≡ last_set paused_set (get_jobs_paused m) xs
  pub attempts :
      get_task_attempts m' j t (task_status_text ts)
      ≡ get_task_attempts m j t (task_status_text ts) + count_attempts j t ts xs
  pub occurrences :
      get_job_occurrences m' j (job_status_text js)
      ≡ get_job_occurrences m j (job_status_text js) + total (occurrence_of j js) xs
  pub recoveries :
      get_recovery_runs m' j strategy
      ≡ get_recovery_runs m j strategy + total (recovery_of j strategy) xs
  pub job_times : get_job_durations m' j ≡ get_job_durations m j ++ gathered (job_time j) xs
  pub task_times :
      get_task_durations m' j t ≡ get_task_durations m j t ++ gathered (task_time j t) xs

-- After any calls, if the names asked for have no colon, and neither have those of the calls that stand
-- before a colon in a key: each reading of the collector in memory is what the calls say. A counter
-- has the number of the calls for its names, a list the durations of those calls in their order, each
-- on top of what was there before; a gauge has the last value that was set, or else what it had.
pub record_all-ReadsAs :
    (xs : List Metric) (m : InMemoryMetrics) (j t strategy : Text) (ts : TaskStatus)
    (js : JobStatus)
    → IsPlain j × IsPlain t
    → All HasPlainNames xs
    → ReadsAs xs m (record_all xs m) j t strategy ts js
record_all-ReadsAs xs m j t strategy ts js (p, q) all = record {
  running = read_last get_jobs_running running_set running_step xs m;
  in_queue = read_last get_jobs_in_queue queue_set queue_step xs m;
  paused = read_last get_jobs_paused paused_set paused_step xs m;
  attempts = get_task_attempts-record_all xs m j t ts (p, q) all;
  occurrences =
      read_total HasPlainNames (λ m. get_job_occurrences m j (job_status_text js))
        (occurrence_of j js) (occurrence_step j js p) xs m all;
  recoveries =
      read_total HasPlainNames (λ m. get_recovery_runs m j strategy) (recovery_of j strategy)
        (recovery_step j strategy p) xs m all;
  job_times =
      read_gathered HasPlainNames (λ m. get_job_durations m j) (job_time j) (job_time_step j) xs m
        all;
  task_times =
      read_gathered HasPlainNames (λ m. get_task_durations m j t) (task_time j t)
        (task_time_step j t p) xs m all;
}
