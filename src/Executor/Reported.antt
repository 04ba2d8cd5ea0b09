-- ===== src/Executor/Reported.antt =====
-- What the executor of executor/executor.go tells the collector of metrics about a task, and what the
-- collector in memory counts then.
use schedule.Base.{
  ℕ, zero, suc, ◌+◌, ◌-◌, ◌≡◌, refl, ◌∙◌, sym, ap, inl, inr, Bool-cases, Option, some, List, [],
  ◌∷◌, ◌++◌, append_assoc, All, after, text_eq, text_eq_refl, if◌then◌else◌,
}
use schedule.Types.{TaskStatus, AttemptReport, TaskReport, TaskConfig, JobOccurrence}
use schedule.Storage.{Storage, TaskRun}
use schedule.Ids.{Formats}
use schedule.Job.{Task, Job, get_effective_config}
use schedule.Metrics.{Metric, task_attempts, task_duration}
use schedule.Metrics.InMemory.{InMemoryMetrics, record_all, get_task_attempts, task_status_text}
use schedule.Metrics.Counts.{IsPlain, HasPlainNames, count_attempts, get_task_attempts-record_all}
use schedule.Executor.{
  Env, World, is_success, retries, execute_attempt, try_attempts, execute_task, new_run, is_done,
  ask,
}

-- Two calls for each attempt, in the order of the attempts.
reported : Job → Task → List AttemptReport → List Metric
reported job task [] = []
reported job task (r ∷ rs) =
    task_attempts job.name task.name r.status
    ∷ task_duration job.name task.name (r.end_time - r.start_time)
    ∷ reported job task rs

-- The attempts that ended with a status.
unfoldable pub with_status : TaskStatus → List AttemptReport → ℕ
with_status s [] = 0
with_status s (r ∷ rs) =
    let rest = with_status s rs in
    if text_eq (task_status_text r.status) (task_status_text s) then suc rest else rest

reported-HasPlainNames :
    (job : Job) (task : Task)
    → IsPlain job.name × IsPlain task.name
    → (rs : List AttemptReport) → All HasPlainNames (reported job task rs)
unfolding reported
reported-HasPlainNames job task p [] = tt
reported-HasPlainNames job task p (r ∷ rs) = (p, (p.0, reported-HasPlainNames job task p rs))

count_attempts-reported :
    (job : Job) (task : Task) (s : TaskStatus) (rs : List AttemptReport)
    → count_attempts job.name task.name s (reported job task rs) ≡ with_status s rs
unfolding count_attempts reported with_status
count_attempts-reported job task s [] = refl
count_attempts-reported job task s (r ∷ rs) =
    rw (text_eq_refl job.name, text_eq_refl task.name, count_attempts-reported job task s rs) refl

record_all-append :
    (xs ys : List Metric) (m : InMemoryMetrics)
    → record_all (xs ++ ys) m ≡ record_all ys (record_all xs m)
unfolding record_all
record_all-append [] ys m = refl
record_all-append (x ∷ xs) ys m = record_all-append xs ys _

module _ (st : Storage) (env : Env) (ids : Formats) where
  metrics-execute_attempt :
      (job : Job) (task : Task) (run : TaskRun) (n : ℕ) (config : TaskConfig) (w : World st)
      → (execute_attempt st env ids job task run n config w).1.metrics
        ≡ w.metrics
          ++ reported job task ((execute_attempt st env ids job task run n config w).0 ∷ [])
  unfolding execute_attempt reported
  metrics-execute_attempt job task run n config w = refl

  -- What the loop returns, after the attempts that are done.
  abbrev Told :
      Job
      → Task
      → List AttemptReport
      → World st
      → TaskStatus × List AttemptReport × World st
      → Type 0
  Told job task done w t =
      (rs : List AttemptReport) × (t.1 ≡ done ++ rs)
      × (t.2.metrics ≡ w.metrics ++ reported job task rs)

  try_attempts-Told :
      (job : Job) (task : Task) (run : TaskRun) (config : TaskConfig) (k n : ℕ)
      (done : List AttemptReport) (w : World st)
      → Told job task done w (try_attempts st env ids job task run config k n done w)
  unfolding try_attempts ask reported
  try_attempts-Told job task run config zero n done w =
      let (r, v) = execute_attempt st env ids job task run n config w in
      (r ∷ [], refl, metrics-execute_attempt job task run n config w)
  try_attempts-Told job task run config (suc k) n done w =
      let (r, v) = execute_attempt st env ids job task run n config w in
      let told = metrics-execute_attempt job task run n config w in
      elim (Bool-cases (is_success r.status)) [
        | inl y ↦ rw y (r ∷ [], refl, told)
        | inr f ↦ rw f (elim (Bool-cases (is_done st env ids v)) [
          | inl d ↦ rw d (r ∷ [], refl, told)
          | inr g ↦
              let (rs, q, i) =
                try_attempts-Told job task run config k (suc n) (done ++ r ∷ [])
                  (ask st env ids v) in
              rw g (
                r ∷ rs,
                q ∙ append_assoc done (r ∷ []) rs,
                i
                    ∙ ap (λ l. l ++ reported job task rs) told
                    ∙ append_assoc w.metrics (reported job task (r ∷ [])) (reported job task rs),
              )
        ])
      ]

  -- A run of a task that does not panic, with its report; `m` is a collector at the start.
  abbrev pub EndsCounted :
      Job → Task → TaskStatus → InMemoryMetrics → World st → Option (TaskReport × World st) → Type 0
  EndsCounted job task s m w result =
      (report : TaskReport) × (v : World st) × (result ≡ some (report, v))
      × (get_task_attempts (record_all v.metrics m) job.name task.name (task_status_text s)
          ≡ get_task_attempts (record_all w.metrics m) job.name task.name (task_status_text s)
            + with_status s report.attempts)

  counted :
      (job : Job) (task : Task) (s : TaskStatus) (m : InMemoryMetrics) (before told : List Metric)
      (attempts rs : List AttemptReport)
      → IsPlain job.name × IsPlain task.name
      → attempts ≡ rs
      → told ≡ before ++ reported job task rs
      → get_task_attempts (record_all told m) job.name task.name (task_status_text s)
        ≡ get_task_attempts (record_all before m) job.name task.name (task_status_text s)
          + with_status s attempts
  counted job task s m before told attempts rs p q e =
      rw
        (
          q,
          e,
          record_all-append before (reported job task rs) m,
          sym (count_attempts-reported job task s rs),
        )
        (get_task_attempts-record_all (reported job task rs) (record_all before m) job.name
          task.name s p (reported-HasPlainNames job task p rs))

  -- If the names of a job and of its task have no colon and the number of retries is not negative, the task
  -- ends with a report, and a collector in memory that is told of all counts, for each status, the attempts
  -- of the report with the status, on top of what it counted before.
  pub execute_task-counted :
      (job : Job) (task : Task) (occurrence : JobOccurrence) (w : World st) (k : ℕ) (s : TaskStatus)
      (m : InMemoryMetrics)
      → retries (get_effective_config job task).retry_policy ≡ some k
      → IsPlain job.name × IsPlain task.name
      → EndsCounted job task s m w (execute_task st env ids job task occurrence w)
  unfolding execute_task
  execute_task-counted job task occurrence w k s m h p =
      let run = new_run st env ids task occurrence w in
      let v = record (ask st env ids w) {
        state = after w.state (st.create_task_run run w.state);
      } in
      let (rs, q, i) = try_attempts-Told job task run (get_effective_config job task) k 0 [] v in
      rw (h, execute_task) (_, _, refl, counted job task s m w.metrics _ _ rs p q i)
