-- ===== src/Scheduler/Setup.antt =====
-- scheduler/scheduler.go: the state of the scheduler, NewScheduler, and what the scheduler meets outside.
use schedule.Base.{ℤ, ℕ, ◌+◌, Bool, false, Option, List, [], Text}
use schedule.Types.{JobConfig, TaskConfig, JobOccurrence, SchedulerConfig}
use schedule.Pool.{WorkerPool, new_worker_pool}
use schedule.Reaper
use schedule.Storage.{Storage}
use schedule.Ids.{Formats}
use schedule.Job.{Task, Job}
use schedule.Executor.{Env, World}
use schedule.Dispatch.{Node}

-- The store, the executor, the pool's queue and the metrics are in the node; `pool_closed` and
-- `reaper_closed` say that the channels are closed that the Stop of the pool and of the reaper close.
-- `reaper_interval` is the interval of the reaper.
pub record Scheduler (st : Storage) : Type 0 where
  pub node : Node st
  pub node_id : Text
  pub jobs : List Job
  pub running : Bool
  pub pool_closed : Bool
  pub reaper_closed : Bool
  pub reaper_interval : ℤ

-- The pool and the reaper that NewScheduler makes.
unfoldable pub new_pool : SchedulerConfig → WorkerPool (Job × JobOccurrence)
new_pool config = new_worker_pool config.max_concurrent_jobs

unfoldable pub new_scheduler_reaper :
    (st : Storage) (env : Env) (ids : Formats)
    → SchedulerConfig
    → World st
    → Reaper.Reaper st env ids
new_scheduler_reaper st env ids config w = Reaper.new_reaper st env ids config.reaper_interval w

-- NewScheduler: the pool has no tasks, and nothing runs.
unfoldable pub new_scheduler : (st : Storage) → SchedulerConfig → World st → Scheduler st
new_scheduler st config w = record {
  node = record { world = w; pool_started = false; task_queue = []; submitted = [] };
  node_id = config.node_id;
  jobs = [];
  running = false;
  pool_closed = false;
  reaper_closed = false;
  reaper_interval = Reaper.or_default config.reaper_interval;
}

-- What the scheduler meets outside: `marshal` and `marshal_task` are json.Marshal at the
-- configurations, `order` and `listing` the orders in which Go ranges over its maps of jobs and of tasks.
pub record Outside : Type 0 where
  pub env : Env
  pub ids : Formats
  pub marshal : JobConfig → Option Text
  pub marshal_task : TaskConfig → Option Text
  pub order : List Job → List Job
  pub listing : List Task → List Task

abbrev pub with_world : {st : Storage} → Scheduler st → World st → Scheduler st
with_world s w = record s { node = record s.node { world = w } }

abbrev pub written : {st : Storage} → ℕ → st.State → World st → World st
written n t w = record w { state = t; asked = w.asked + n }
