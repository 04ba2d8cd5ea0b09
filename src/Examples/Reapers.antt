-- ===== src/Examples/Reapers.antt =====
-- A reap two hours after an occurrence has started.
use schedule.Base.{◌+◌, false, none, some, [], ◌∷◌, after}
use schedule.Types.{JobStatus}
use schedule.Storage.{Storage, JobOccurrence}
use schedule.Executor.{Env, World}
use schedule.Badger.Operations.{badger_storage, create_job_occurrence}
use schedule.Reaper.{reap_stale_jobs}
use schedule.Reaper.Marked.{MarksStale, badger_marks_stale, EndsReaped, reap_stale_jobs_marks}
use schedule.Samples.Memory.{memory, memory-laws, empty_memory}
use schedule.Samples.Encoding.{sample_json, sample_json-faithful}
use schedule.Examples.Jobs.{plain, world_outside}

abbrev reaped_store : Storage
reaped_store = badger_storage memory sample_json

abbrev hung : JobOccurrence
hung = record {
  id = 7 ∷ [];
  job_id = 3 ∷ [];
  job_version = 1;
  scheduled_time = 100;
  status = JobStatus.running;
  owning_node_id = [];
  start_time = some 101;
  end_time = none;
  config = [];
  is_recovery_run = false;
  created_at = 90;
  updated_at = 101;
}

abbrev two_hours_later : Env
two_hours_later = record world_outside { clock = λ n. 7200000000000 + n }

hung_world : World reaped_store
unfolding badger_storage memory
hung_world = record {
  state = after empty_memory (create_job_occurrence memory sample_json hung empty_memory);
  asked = 0;
  group_cancelled = false;
  metrics = [];
  hooks = [];
}

abbrev marks : MarksStale reaped_store
marks = badger_marks_stale memory memory-laws sample_json sample_json-faithful

reap_stale_jobs_marks_example :
    EndsReaped reaped_store marks two_hours_later plain hung_world
      (reap_stale_jobs reaped_store two_hours_later plain hung_world)
reap_stale_jobs_marks_example =
    reap_stale_jobs_marks reaped_store marks two_hours_later plain hung_world
