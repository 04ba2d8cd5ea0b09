-- ===== src/Examples/Jobs.antt =====
-- Identifiers, jobs and their execution over a database in memory.
use mathlib.Core.List.Permᴰ
use schedule.Base.{
  ◌+◌, ◌≡◌, refl, ◌⊎◌, true, false, none, some, [], ◌∷◌, Text, codes, pos, ok, after, ◌==◌,
  if◌then◌else◌, text_eq,
}
use schedule.Ticker.Any.{Ticker, once}
use schedule.Types.{
  JobStatus, TaskConfig, JobConfig, JobOccurrence, sequential, parallel, fail_fast, allow,
  execute_all,
}
use schedule.Storage.{Storage}
use schedule.Ids.{Formats, Collision, task_namespace, joined, generate_task_id-injective}
use schedule.Job.{Task, Job, get_effective_config}
use schedule.Executor.{Env, World, execute_task, ask, retries}
use schedule.Executor.Groups.{execute_job_occurrence, update_occurrence_status, running_from}
use schedule.Executor.Attempts.{EndsRetried, execute_task-IsRetried}
use schedule.Executor.Outcomes.{EndsInParallel, execute_job_occurrence-Reported}
use schedule.Badger.Keys.{occurrence_key}
use schedule.Badger.Records.{create_record, update_record}
use schedule.Badger.Operations.{badger_storage, create_job_occurrence, update_job_occurrence}
use schedule.Samples.Memory.{memory, empty_memory}
use schedule.Samples.Encoding.{sample_json}
use schedule.Examples.Stores.{stored}

-- A hash that tells all texts apart, and a text for each second.
abbrev pub plain : Formats
plain = record { new_sha1 = λ namespace t. t; rfc3339 = λ n. n ∷ [] }

abbrev report_id : Text
report_id = 3 ∷ []

abbrev pub inherit : TaskConfig
inherit = record { failure_strategy = none; retry_policy = none; task_timeout = none }

abbrev once_more : TaskConfig
once_more = record inherit {
  retry_policy = some (record { max_retries = pos 1; retry_interval = pos 0; backoff_factor = 0 });
}

abbrev pub later : Ticker
later = once (record {
  scheduled_time = 100;
  config = record { start_time = none; end_time = none; timezone = [] };
  control = record { running = false; paused = false; stop_closed = false; pause_ch = none };
  executed = false;
  location = 0;
})

abbrev pub steps : JobConfig
steps = record {
  task_execution_mode = sequential;
  failure_strategy = fail_fast;
  execution_timeout = pos 0;
  overlap_policy = allow;
  recovery_strategy = execute_all;
  bounded_window = none;
  task_config = inherit;
}

abbrev no_tasks : Job
no_tasks = record {
  id = 3 ∷ [];
  name = codes "report";
  config = steps;
  ticker = later;
  tasks = [];
  version = 1;
  active = true;
  paused = false;
  on_start = none;
  on_complete = none;
}

abbrev pub good : Task
good = record { id = 10 ∷ []; name = codes "good"; config = inherit; order = 0; fn = 0 }

abbrev pub bad : Task
bad = record { id = 11 ∷ []; name = codes "bad"; config = once_more; order = 1; fn = 1 }

abbrev pub in_steps : Job
in_steps = record no_tasks { tasks = good ∷ bad ∷ [] }

abbrev at_once : Job
at_once = record in_steps { config = record steps { task_execution_mode = parallel } }

abbrev pub due : JobOccurrence
due = record {
  id = 7 ∷ [];
  job_id = 3 ∷ [];
  job_version = 1;
  scheduled_time = 100;
  status = JobStatus.pending;
  owning_node_id = [];
  start_time = none;
  end_time = none;
  config = steps;
  is_recovery_run = false;
  created_at = 90;
  updated_at = 90;
}

-- The function 0 succeeds, and every other one fails.
abbrev pub world_outside : Env
world_outside = record {
  clock = λ n. 101 + n;
  context_done = λ n. false;
  call = λ fn context limit n. record {
    error = if fn == 0 then none else some (codes "no");
    deadline_exceeded = false;
  };
  finishing = λ tasks. tasks;
}

abbrev pub store : Storage
store = badger_storage memory sample_json

unfoldable pub before : World store
unfolding badger_storage memory
before = record { state = stored; asked = 0; group_cancelled = false; metrics = []; hooks = [] }

generate_task_id-injective_example :
    ((report_id ≡ report_id) × (codes "good" ≡ codes "good"))
    ⊎ Collision plain task_namespace
        (joined (3 ∷ []) (codes "good"))
        (joined (3 ∷ []) (codes "good"))
generate_task_id-injective_example =
    generate_task_id-injective plain (3 ∷ []) (3 ∷ []) (codes "good") (codes "good") refl refl

execute_task-IsRetried_example :
    EndsRetried store world_outside plain bad 1 before
      (execute_task store world_outside plain in_steps bad due before)
unfolding retries get_effective_config
execute_task-IsRetried_example =
    execute_task-IsRetried store world_outside plain in_steps bad due before 1 refl

-- The state once the status Running is stored.
running_state : store.State
running_state = after before.state (
    update_occurrence_status store world_outside plain
      (running_from store world_outside plain due (world_outside.clock 0))
      (ask store world_outside plain before))

running_ok :
    update_occurrence_status store world_outside plain
      (running_from store world_outside plain due (world_outside.clock before.asked))
      (ask store world_outside plain before)
    ≡ ok running_state
unfolding running_state before update_occurrence_status running_from ask badger_storage memory
    stored update_job_occurrence update_record create_job_occurrence create_record sample_json
    occurrence_key text_eq empty_memory
running_ok = refl

abbrev due_running : JobOccurrence
due_running = running_from store world_outside plain due (world_outside.clock before.asked)

execute_job_occurrence-Reported_example :
    EndsInParallel store world_outside plain at_once
      (execute_job_occurrence store world_outside plain at_once due before)
unfolding retries get_effective_config
execute_job_occurrence-Reported_example =
    execute_job_occurrence-Reported store world_outside plain at_once due before running_state refl
      (λ tasks. Permᴰ.refl tasks) ((0, refl), ((1, refl), tt)) running_ok
