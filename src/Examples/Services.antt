-- ===== src/Examples/Services.antt =====
-- A scheduler that is started, shut down and updated, over a database in memory.
use schedule.Base.{pos, ◌≡◌, refl, true, false, none, some, [], ◌∷◌, codes}
use schedule.Types.{immediate}
use schedule.Storage.{Storage}
use schedule.Badger.Operations.{badger_storage}
use schedule.Badger.Once.{badger_creates_once}
use schedule.Executor.{World}
use schedule.Update.{JobUpdate}
use schedule.Samples.Memory.{memory, memory-laws, empty_memory}
use schedule.Samples.JobEncoding.{job_json}
use schedule.Scheduler.Registry.{stop_tickers, start_tickers}
use schedule.Scheduler.Setup.{Scheduler, Outside, new_scheduler}
use schedule.Scheduler.Service.{register_job, start_scheduler, shutdown, recover_jobs}
use schedule.Scheduler.Service.Registered.{badger_creates_jobs, EndsRegistered, register_job_once}
use schedule.Scheduler.Service.Restarted.{call_start, serve, serve_all, second_shutdown_panics}
use schedule.Scheduler.Service.Started.{EndsStarted, start_scheduler_recovers}
use schedule.Examples.Jobs.{plain, in_steps, world_outside}

abbrev job_store : Storage
job_store = badger_storage memory job_json

abbrev outside : Outside
outside = record {
  env = world_outside;
  ids = plain;
  marshal = λ c. some [];
  marshal_task = λ c. none;
  order = λ js. js;
  listing = λ ts. ts;
}

at_first : World job_store
unfolding badger_storage memory
at_first = record {
  state = empty_memory;
  asked = 0;
  group_cancelled = false;
  metrics = [];
  hooks = [];
}

abbrev fresh_one : Scheduler job_store
fresh_one =
    new_scheduler job_store
      (record { max_concurrent_jobs = pos 2; reaper_interval = pos 0; node_id = codes "a" })
      at_first

-- The configuration of its first task has no JSON.
register_job_once_example :
    EndsRegistered job_store
      (badger_creates_jobs memory memory-laws job_json)
      outside
      in_steps
      fresh_one
      (register_job job_store outside in_steps fresh_one)
register_job_once_example =
    register_job_once job_store (badger_creates_jobs memory memory-laws job_json) outside in_steps
      fresh_one

abbrev with_job : Scheduler job_store
with_job = record {
  node = record { world = at_first; pool_started = false; task_queue = []; submitted = [] };
  node_id = codes "a";
  jobs = in_steps ∷ [];
  running = false;
  pool_closed = false;
  reaper_closed = false;
  reaper_interval = pos 300000000000;
}

start_scheduler_recovers_example :
    EndsStarted job_store
      (badger_creates_once memory memory-laws job_json)
      outside
      with_job
      (start_scheduler job_store outside with_job)
start_scheduler_recovers_example =
    start_scheduler_recovers job_store (badger_creates_once memory memory-laws job_json) outside
      with_job

abbrev running_one : Scheduler job_store
running_one = record with_job {
  node = record with_job.node { pool_started = true };
  running = true;
}

-- A scheduler without jobs, after a Shutdown, and started again.
abbrev shut_idle : Scheduler job_store
shut_idle = record with_job { jobs = []; pool_closed = true; reaper_closed = true }

idle_running : Scheduler job_store
idle_running = record running_one { jobs = [] }

started_again : Scheduler job_store
started_again = record shut_idle {
  node = record shut_idle.node { pool_started = true };
  running = true;
}

idle_shuts_down : shutdown job_store outside idle_running ≡ some shut_idle
unfolding idle_running shutdown stop_tickers
idle_shuts_down = refl

starts_again : serve_all job_store outside (call_start ∷ []) shut_idle ≡ some started_again
unfolding serve_all started_again start_scheduler recover_jobs start_tickers serve
starts_again = refl

second_shutdown_panics_example : shutdown job_store outside started_again ≡ none
unfolding idle_running started_again
second_shutdown_panics_example =
    second_shutdown_panics job_store outside idle_running shut_idle started_again (call_start ∷ [])
      refl idle_shuts_down starts_again refl

-- The second task of the job is removed.
abbrev one_less : JobUpdate
one_less = record {
  job_id = 3 ∷ [];
  expected_version = 1;
  new_config = none;
  new_ticker = none;
  added_tasks = [];
  removed_task_ids = (11 ∷ []) ∷ [];
  updated_tasks = [];
  policy = immediate;
}
