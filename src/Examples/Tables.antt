-- ===== src/Examples/Tables.antt =====
-- The job methods of Badger over a database in memory.
use schedule.Base.{
  ◌≡◌, sym, inl, inr, Bool-cases, text_eq, text_eq-true, arith, ok, after, codes, refl, true, false,
  none, List, [], ◌∷◌,
}
use schedule.Storage.{Job, Task}
use schedule.Badger.Records.{get_record, create_record}
use schedule.Badger.Operations.{get_job, create_task}
use schedule.Badger.Jobs.{JobCall, create, update, read, delete, Shows, IsServed}
use schedule.Badger.Jobs.Served.{badger_jobs_refine}
use schedule.Samples.Memory.{memory, memory-laws, empty_memory}
use schedule.Samples.JobEncoding.{job_json, job_json-faithful}
use schedule.Samples.TaskEncoding.{task_json, task_json-faithful}
use schedule.Badger.Keys.{task_key}
use schedule.Badger.Tasks.{IsAlone, EndsFound, get_task-create_task}

abbrev nightly : Job
nightly = record {
  id = 3 ∷ [];
  name = 5 ∷ [];
  schedule_type = [];
  schedule_config = [];
  config = [];
  version = 4;
  active = true;
  paused = false;
  last_run_time = none;
  created_at = 90;
  updated_at = 90;
}

abbrev on_jobs : List JobCall
on_jobs =
    create nightly
    ∷ update 120 (record nightly { paused = true })
    ∷ create nightly
    ∷ read (3 ∷ [])
    ∷ delete (3 ∷ [])
    ∷ read (3 ∷ [])
    ∷ []

empty_Shows : Shows memory job_json empty_memory (λ i. none)
unfolding memory empty_memory get_job get_record
empty_Shows i = refl

badger_jobs_refine_example : IsServed memory job_json on_jobs empty_memory (λ i. none)
badger_jobs_refine_example =
    badger_jobs_refine memory job_json memory-laws job_json-faithful on_jobs empty_memory
      (λ i. none) empty_Shows

abbrev first_task : Task
first_task = record {
  id = 10 ∷ [];
  job_id = 3 ∷ [];
  name = codes "good";
  config = [];
  order = 0;
  created_at = 90;
  updated_at = 90;
}

task_there : memory.Db
task_there = after empty_memory (create_task memory task_json first_task empty_memory)

task_created : create_task memory task_json first_task empty_memory ≡ ok task_there
unfolding task_there memory empty_memory create_task create_record task_json task_key
task_created = refl

-- Its own key is the only one.
task_IsAlone : IsAlone memory memory-laws task_json task_json-faithful first_task task_there
unfolding task_there memory empty_memory create_task create_record task_json task_key
task_IsAlone k v g t = elim (Bool-cases (text_eq (task_key first_task.job_id first_task.id) k)) [
  | inl y ↦ sym (text_eq-true _ k y)
  | inr n ↦ absurd (ground (arith, n, g))
]

get_task-create_task_example :
    EndsFound memory memory-laws task_json task_json-faithful first_task task_there
get_task-create_task_example =
    get_task-create_task memory memory-laws task_json task_json-faithful first_task empty_memory
      task_there task_created task_IsAlone
