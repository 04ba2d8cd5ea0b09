-- ===== src/Badger/Operations.antt =====
-- The methods of `BadgerStorage` in storage/badger/badger.go, in the order of the source, and the
-- value of the interface Storage that they make.
use schedule.Base.{
  ℕ, ◌-◌, ◌&&◌, Bool, true, false, Option, none, some, List, Text, codes, text_eq, contains,
  has_suffix, count_byte, leb, ltb, Result, ok, err, already_exists, not_found, ◌>>=◌,
}
use schedule.Ticker.Window.{Time}
use schedule.Types.{is_running, is_queued, is_pending}
use schedule.Storage.{Job, Task, JobOccurrence, TaskRun, ExecutionAttempt, Storage}
use schedule.Badger.Database.{Database, Codec}
use schedule.Badger.Records.{create_record, get_record, update_record, list_records, find_record}
use schedule.Badger.Keys.{
  job_key, task_key, occurrence_key, stored_run_key, stored_attempt_key, task_prefix,
  occurrence_prefix,
}

-- encoding/json at the five types of records.
pub record Json : Type 0 where
  pub job : Codec Job
  pub task : Codec Task
  pub occurrence : Codec JobOccurrence
  pub run : Codec TaskRun
  pub attempt : Codec ExecutionAttempt

-- A read of a record that has to be there before it is deleted.
abbrev present : {A : Type 0} → Text → Option A → Result A
present id none = err (not_found id)
present id (some a) = ok a

-- Keys with a second slash are those of tasks and occurrences.
abbrev pub is_job_key : Text → Bool
is_job_key key = leb (count_byte b'/' key) 1

abbrev pub is_task_key : Text → Text → Bool
is_task_key id key = contains key (codes "/task/") && has_suffix key id

abbrev pub is_occurrence_key : Text → Bool
is_occurrence_key key = contains key (codes "/occurrence/")

-- `occ.StartTime != nil && occ.StartTime.Before(cutoff)`, with `cutoff` the threshold before now.
abbrev pub started_before : Time → Option Time → Bool
started_before cutoff none = false
started_before cutoff (some t) = ltb t cutoff

module _ (b : Database) (json : Json) where
  unfoldable pub create_job : Job → b.Db → Result b.Db
  create_job job db = create_record b json.job (job_key job.id) (already_exists job.id) job db

  unfoldable pub get_job : Text → b.Db → Result (Option Job)
  get_job id db = get_record b json.job (job_key id) (not_found id) db

  unfoldable pub update_job : Time → Job → b.Db → Result b.Db
  update_job now job db =
      update_record b json.job (job_key job.id) (not_found job.id) (record job { updated_at = now })
        db

  unfoldable pub delete_job : Text → b.Db → Result b.Db
  delete_job id db = b.delete (job_key id) db

  unfoldable pub list_jobs : b.Db → Result (List Job)
  list_jobs db = list_records json.job is_job_key (λ _. true) (b.iterate (codes "job/") db)

  unfoldable pub create_task : Task → b.Db → Result b.Db
  create_task task db =
      create_record b json.task (task_key task.job_id task.id) (already_exists task.id) task db

  unfoldable pub find_task : Text → b.Db → Result (Option Task)
  find_task id db = find_record json.task (is_task_key id) (b.iterate (codes "job/") db)

  unfoldable pub get_task : Text → b.Db → Result (Option Task)
  unfolding find_task
  get_task id db = do t ← find_task id db; found ← present id t; ok (some found)

  unfoldable pub update_task : Time → Task → b.Db → Result b.Db
  update_task now task db =
      update_record b json.task (task_key task.job_id task.id) (not_found task.id)
        (record task { updated_at = now }) db

  unfoldable pub delete_task : Text → b.Db → Result b.Db
  delete_task id db = do
    t ← get_task id db
    task ← present id t
    b.delete (task_key task.job_id task.id) db

  unfoldable pub list_tasks_by_job_id : Text → b.Db → Result (List Task)
  list_tasks_by_job_id job_id db =
      list_records json.task (λ _. true) (λ _. true) (b.iterate (task_prefix job_id) db)

  unfoldable pub create_job_occurrence : JobOccurrence → b.Db → Result b.Db
  create_job_occurrence o db =
      create_record b json.occurrence (occurrence_key o.job_id o.id) (already_exists o.id) o db

  unfoldable pub find_job_occurrence : Text → b.Db → Result (Option JobOccurrence)
  find_job_occurrence id db =
      find_record json.occurrence (λ key. is_occurrence_key key && has_suffix key id)
        (b.iterate (codes "job/") db)

  unfoldable pub get_job_occurrence : Text → b.Db → Result (Option JobOccurrence)
  unfolding find_job_occurrence
  get_job_occurrence id db = do o ← find_job_occurrence id db; found ← present id o; ok (some found)

  unfoldable pub update_job_occurrence : Time → JobOccurrence → b.Db → Result b.Db
  update_job_occurrence now o db =
      update_record b json.occurrence (occurrence_key o.job_id o.id) (not_found o.id)
        (record o { updated_at = now }) db

  unfoldable pub delete_job_occurrence : Text → b.Db → Result b.Db
  delete_job_occurrence id db = do
    o ← get_job_occurrence id db
    occurrence ← present id o
    b.delete (occurrence_key occurrence.job_id occurrence.id) db

  unfoldable pub list_running_occurrences : b.Db → Result (List JobOccurrence)
  list_running_occurrences db =
      list_records json.occurrence is_occurrence_key (λ o. is_running o.status)
        (b.iterate (codes "job/") db)

  unfoldable pub list_stale_occurrences : Time → ℕ → b.Db → Result (List JobOccurrence)
  list_stale_occurrences now threshold db =
      list_records json.occurrence is_occurrence_key
        (λ o. is_running o.status && started_before (now - threshold) o.start_time)
        (b.iterate (codes "job/") db)

  unfoldable pub list_queued_occurrences_by_job_id : Text → b.Db → Result (List JobOccurrence)
  list_queued_occurrences_by_job_id job_id db =
      list_records json.occurrence (λ _. true) (λ o. is_queued o.status)
        (b.iterate (occurrence_prefix job_id) db)

  unfoldable pub list_pending_occurrences : Text → b.Db → Result (List JobOccurrence)
  list_pending_occurrences job_id db =
      list_records json.occurrence (λ _. true) (λ o. is_pending o.status)
        (b.iterate (occurrence_prefix job_id) db)

  unfoldable pub create_task_run : TaskRun → b.Db → Result b.Db
  create_task_run run db =
      create_record b json.run (stored_run_key run.id) (already_exists run.id) run db

  unfoldable pub get_task_run : Text → b.Db → Result (Option TaskRun)
  get_task_run id db = get_record b json.run (stored_run_key id) (not_found id) db

  unfoldable pub update_task_run : Time → TaskRun → b.Db → Result b.Db
  update_task_run now run db =
      update_record b json.run (stored_run_key run.id) (not_found run.id)
        (record run { updated_at = now }) db

  unfoldable pub delete_task_run : Text → b.Db → Result b.Db
  delete_task_run id db = b.delete (stored_run_key id) db

  unfoldable pub list_task_runs_by_occurrence_id : Text → b.Db → Result (List TaskRun)
  list_task_runs_by_occurrence_id occurrence_id db =
      list_records json.run (λ _. true) (λ r. text_eq r.occurrence_id occurrence_id)
        (b.iterate (codes "taskrun/") db)

  unfoldable pub create_execution_attempt : ExecutionAttempt → b.Db → Result b.Db
  create_execution_attempt a db =
      create_record b json.attempt (stored_attempt_key a.id) (already_exists a.id) a db

  unfoldable pub get_execution_attempt : Text → b.Db → Result (Option ExecutionAttempt)
  get_execution_attempt id db = get_record b json.attempt (stored_attempt_key id) (not_found id) db

  unfoldable pub update_execution_attempt : ExecutionAttempt → b.Db → Result b.Db
  update_execution_attempt a db =
      update_record b json.attempt (stored_attempt_key a.id) (not_found a.id) a db

  unfoldable pub list_execution_attempts_by_task_run_id :
      Text → b.Db → Result (List ExecutionAttempt)
  list_execution_attempts_by_task_run_id task_run_id db =
      list_records json.attempt (λ _. true) (λ a. text_eq a.task_run_id task_run_id)
        (b.iterate (codes "attempt/") db)

  unfoldable pub badger_storage : Storage
  badger_storage = record {
    State = b.Db;
    create_job = create_job;
    get_job = get_job;
    update_job = update_job;
    delete_job = delete_job;
    list_jobs = list_jobs;
    create_task = create_task;
    get_task = get_task;
    update_task = update_task;
    delete_task = delete_task;
    list_tasks_by_job_id = list_tasks_by_job_id;
    create_job_occurrence = create_job_occurrence;
    get_job_occurrence = get_job_occurrence;
    update_job_occurrence = update_job_occurrence;
    delete_job_occurrence = delete_job_occurrence;
    list_running_occurrences = list_running_occurrences;
    list_stale_occurrences = list_stale_occurrences;
    list_queued_occurrences_by_job_id = list_queued_occurrences_by_job_id;
    list_pending_occurrences = list_pending_occurrences;
    create_task_run = create_task_run;
    get_task_run = get_task_run;
    update_task_run = update_task_run;
    delete_task_run = delete_task_run;
    list_task_runs_by_occurrence_id = list_task_runs_by_occurrence_id;
    create_execution_attempt = create_execution_attempt;
    get_execution_attempt = get_execution_attempt;
    update_execution_attempt = update_execution_attempt;
    list_execution_attempts_by_task_run_id = list_execution_attempts_by_task_run_id;
  }
