-- ===== src/Examples/Updates.antt =====
-- The difference of two schedules, and an update that stops half way.
use schedule.Base.{
  ◌≡◌, refl, [], ◌∷◌, ok, err, none, some, true, false, after, marshal_failed, text_eq,
}
use schedule.Ticker.Any.{Ticker, once, get_occurrences_between}
use schedule.Ticker.Once
use schedule.Ticker.Window.{within_window}
use schedule.Update.Diff.{Differ, diff_schedules, diff_schedules_exact}
use schedule.Examples.Jobs.{later, good, world_outside}
use schedule.Types.{graceful}
use schedule.Storage.{Storage}
use schedule.Storage
use schedule.Executor.{World}
use schedule.Badger.Keys.{job_key, task_key}
use schedule.Badger.Records.{create_record, get_record, update_record}
use schedule.Badger.Operations.{badger_storage, create_job, get_job, update_job, create_task}
use schedule.Samples.Memory.{memory, memory-laws, empty_memory}
use schedule.Samples.Encoding.{sample_json}
use schedule.Samples.JobEncoding.{job_json, job_json-faithful}
use schedule.Update.{JobUpdate, apply_update, raised, added}
use schedule.Update.Version.{EndsHalfway, job_written, badger-ReadsBack, apply_update_halfway}

abbrev later_still : Ticker
later_still = once (record {
  scheduled_time = 200;
  config = record { start_time = none; end_time = none; timezone = [] };
  control = record { running = false; paused = false; stop_closed = false; pause_ch = none };
  executed = false;
  location = 0;
})

old_runs : get_occurrences_between later 50 300 ≡ ok (100 ∷ [])
unfolding get_occurrences_between Once.get_occurrences_between within_window
old_runs = refl

new_runs : get_occurrences_between later_still 50 300 ≡ ok (200 ∷ [])
unfolding get_occurrences_between Once.get_occurrences_between within_window
new_runs = refl

diff_schedules_exact_example :
    Differ later later_still (100 ∷ []) (200 ∷ []) (diff_schedules later later_still 50 300)
diff_schedules_exact_example =
    diff_schedules_exact later later_still 50 300 (100 ∷ []) (200 ∷ []) old_runs new_runs

abbrev job_store : Storage
job_store = badger_storage memory job_json

abbrev record_of_job : Storage.Job
record_of_job = record {
  id = 3 ∷ [];
  name = 5 ∷ [];
  schedule_type = [];
  schedule_config = [];
  config = [];
  version = 4;
  active = true;
  paused = false;
  last_run_time = none;
  created_at = 90;
  updated_at = 90;
}

-- A version that is expected, and a task whose record cannot be encoded.
abbrev one_task : JobUpdate
one_task = record {
  job_id = 3 ∷ [];
  expected_version = 4;
  new_config = none;
  new_ticker = none;
  added_tasks = good ∷ [];
  removed_task_ids = [];
  updated_tasks = [];
  policy = graceful;
}

job_there : memory.Db
job_there = after empty_memory (create_job memory job_json record_of_job empty_memory)

before_update : World job_store
unfolding badger_storage memory
before_update = record {
  state = job_there;
  asked = 0;
  group_cancelled = false;
  metrics = [];
  hooks = [];
}

read_before : job_store.get_job (3 ∷ []) before_update.state ≡ ok (some record_of_job)
unfolding before_update job_there badger_storage memory empty_memory create_job get_job
    create_record get_record job_json job_key text_eq
read_before = refl

written : job_store.State
written = after before_update.state (
    job_store.update_job 102 (raised job_store world_outside record_of_job one_task 101)
      before_update.state)

written_ok :
    job_store.update_job 102
      (raised job_store world_outside record_of_job one_task 101)
      before_update.state
    ≡ ok written
unfolding written before_update job_there badger_storage memory empty_memory create_job update_job
    create_record update_record job_json job_key text_eq raised
written_ok = refl

refused :
    job_store.create_task
      (added job_store world_outside
        (3 ∷ [])
        good
        (job_written job_store world_outside written before_update))
      written
    ≡ err marshal_failed
unfolding written before_update job_there badger_storage memory empty_memory create_job update_job
    create_record update_record job_json sample_json job_key text_eq raised create_task task_key
    added
refused = refl

apply_update_halfway_example :
    EndsHalfway job_store world_outside one_task written marshal_failed
      (apply_update job_store world_outside one_task before_update)
unfolding before_update
apply_update_halfway_example =
    apply_update_halfway job_store world_outside one_task before_update record_of_job written good
      [] marshal_failed (badger-ReadsBack memory memory-laws job_json job_json-faithful) read_before
      refl refl written_ok refl refused
