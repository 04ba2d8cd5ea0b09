-- ===== src/Examples/Collected.antt =====
-- The metrics of a few calls.
use schedule.Base.{ℕ, ◌≡◌, ◌≢◌, refl, List, [], ◌∷◌, Text, codes, arith}
use schedule.Types.{TaskStatus, JobStatus, success}
use schedule.Metrics.{
  Metric, jobs_running, task_attempts, job_occurrences, job_duration, task_duration,
}
use schedule.Metrics.InMemory.{
  new_in_memory_metrics, record_all, get_task_attempts, task_status_text, record_metric, increment,
  attempts_key, get_job_durations, append_at,
}
use schedule.Metrics.Counts.{count_attempts}
use schedule.Metrics.Reads.{ReadsAs, record_all-ReadsAs}
use schedule.Ids.{joined}
use schedule.Metrics.Counts.{IsPlain}
use schedule.Job.{get_effective_config}
use schedule.Executor.{execute_task, retries}
use schedule.Executor.Reported.{EndsCounted, execute_task-counted}
use schedule.Examples.Jobs.{in_steps, bad, due, before, store, plain, world_outside}
use schedule.Base.{text_eq}

abbrev job_a : Text
job_a = 97 ∷ []

abbrev task_b : Text
task_b = 98 ∷ []

abbrev calls : List Metric
calls =
    task_attempts job_a task_b TaskStatus.failed
    ∷ jobs_running 1
    ∷ task_attempts job_a task_b success
    ∷ task_attempts job_a task_b TaskStatus.failed
    ∷ []

two_failed : count_attempts job_a task_b TaskStatus.failed calls ≡ 2
unfolding count_attempts text_eq task_status_text
two_failed = refl

-- A name with a colon: the attempts of task "c" of job "a:b" read as those of "b:c" of "a".
mixed_up :
    get_task_attempts
      (record_all (task_attempts (97 ∷ 58 ∷ 98 ∷ []) (99 ∷ []) success ∷ []) new_in_memory_metrics)
      (97 ∷ [])
      (98 ∷ 58 ∷ 99 ∷ [])
      (codes "Success")
    ≡ 1
unfolding get_task_attempts record_all record_metric increment attempts_key text_eq task_status_text
    joined new_in_memory_metrics
mixed_up = refl

a_plain : ◌≢◌ {A = ℕ} 97 58
a_plain e = omega arith

b_plain : ◌≢◌ {A = ℕ} 98 58
b_plain e = omega arith

abbrev mixed_calls : List Metric
mixed_calls =
    jobs_running 3
    ∷ job_occurrences job_a JobStatus.completed
    ∷ job_duration job_a 50
    ∷ task_attempts job_a task_b success
    ∷ task_duration job_a task_b 20
    ∷ jobs_running 1
    ∷ job_duration job_a 40
    ∷ []

mixed_durations :
    get_job_durations (record_all mixed_calls new_in_memory_metrics) job_a ≡ 50 ∷ 40 ∷ []
unfolding get_job_durations record_all record_metric append_at text_eq new_in_memory_metrics
mixed_durations = refl

record_all-ReadsAs_example :
    ReadsAs mixed_calls new_in_memory_metrics
      (record_all mixed_calls new_in_memory_metrics)
      job_a
      task_b
      []
      success
      JobStatus.completed
record_all-ReadsAs_example =
    record_all-ReadsAs mixed_calls new_in_memory_metrics job_a task_b [] success JobStatus.completed
      ((a_plain, tt), (b_plain, tt))
      (tt, ((a_plain, tt), (tt, (((a_plain, tt), (b_plain, tt)), ((a_plain, tt), (tt, (tt, tt)))))))

-- The names of the job and of its failing task.
report-IsPlain : IsPlain in_steps.name
report-IsPlain = (
  λ e. omega arith,
  (
    λ e. omega arith,
    (λ e. omega arith, (λ e. omega arith, (λ e. omega arith, (λ e. omega arith, tt)))),
  ),
)

bad-IsPlain : IsPlain bad.name
bad-IsPlain = (λ e. omega arith, (λ e. omega arith, (λ e. omega arith, tt)))

execute_task-counted_example :
    EndsCounted store world_outside plain in_steps bad TaskStatus.failed new_in_memory_metrics
      before
      (execute_task store world_outside plain in_steps bad due before)
unfolding retries get_effective_config
execute_task-counted_example =
    execute_task-counted store world_outside plain in_steps bad due before 1 TaskStatus.failed
      new_in_memory_metrics refl (report-IsPlain, bad-IsPlain)
