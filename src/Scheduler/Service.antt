-- ===== src/Scheduler/Service.antt =====
-- scheduler/scheduler.go: the methods of the scheduler: RegisterJob, Start, Shutdown, UpdateJob, GetJob, ListJobs and updateMetrics. A panic of the Go
-- runtime is none.
pub mod Registered
pub mod Restarted
pub mod Started
pub mod Updated
use schedule.Base.{
  is_pos, ℕ, suc, ◌+◌, ◌-◌, ◌==◌, Bool, true, false, not, ◌&&◌, ◌||◌, Option, none, some, List, [],
  ◌∷◌, ◌++◌, Text, codes, length, keep, text_eq, Result, ok, err, Error, marshal_failed,
  already_registered, already_running, not_registered, version_mismatch, if◌then◌else◌,
}
use schedule.Ticker.Window.{Time}
use schedule.Ticker.Any.{Ticker, start_ticker, stop_ticker, get_occurrences_between}
use schedule.Types.{JobConfig, TaskConfig, JobOccurrence, SchedulerConfig}
use schedule.Pool.{WorkerPool, new_worker_pool}
use schedule.Reaper
use schedule.Storage.{Storage}
use schedule.Storage
use schedule.Ids.{Formats}
use schedule.Job.{Task, Job}
use schedule.Metrics.{jobs_running, jobs_in_queue, jobs_paused}
use schedule.Executor.{Env, World}
use schedule.Dispatch.{Node}
use schedule.Recovery.{apply_strategy}
use schedule.Update.{JobUpdate, apply_update}
use schedule.Scheduler.Registry.{find_job, replace_job, is_watched, start_tickers, stop_tickers}
use schedule.Scheduler.Tasks.{merged_tasks}
use schedule.Scheduler.Setup.{Scheduler, Outside, with_world, written}

day : ℕ
day = 86400000000000

module _ (st : Storage) (out : Outside) where
  unfoldable pub stored_job : Job → Text → World st → Storage.Job
  stored_job job config w = record {
    id = job.id;
    name = job.name;
    schedule_type = codes "cron";
    schedule_config = [];
    config = config;
    version = job.version;
    active = job.active;
    paused = job.paused;
    last_run_time = none;
    created_at = out.env.clock w.asked;
    updated_at = out.env.clock (w.asked + 1);
  }

  unfoldable pub stored_task : Text → Task → Text → World st → Storage.Task
  stored_task job_id task config w = record {
    id = task.id;
    job_id = job_id;
    name = task.name;
    config = config;
    order = task.order;
    created_at = out.env.clock w.asked;
    updated_at = out.env.clock (w.asked + 1);
  }

  -- The loop over the tasks of a job that is registered.
  unfoldable pub create_tasks : Text → List Task → World st → World st × Option Error
  create_tasks job_id [] w = (w, none)
  create_tasks job_id (task ∷ tasks) w = elim (out.marshal_task task.config) [
    | none ↦ (w, some marshal_failed)
    | some config ↦ elim (st.create_task (stored_task job_id task config w) w.state) [
      | err e ↦ (written 2 w.state w, some e)
      | ok t ↦ create_tasks job_id tasks (written 2 t w)
    ]
  ]

  unfoldable pub register_job : Job → Scheduler st → Scheduler st × Option Error
  register_job job s = elim (find_job job.id s.jobs) [
    | some _ ↦ (s, some (already_registered job.id))
    | none ↦ elim (out.marshal job.config) [
      | none ↦ (s, some marshal_failed)
      | some config ↦
          let w = s.node.world in
          elim (st.create_job (stored_job job config w) w.state) [
            | err e ↦ (with_world s (written 2 w.state w), some e)
            | ok t ↦
                let (v, failed) = create_tasks job.id job.tasks (written 2 t w) in
                elim failed [
                  | some e ↦ (with_world s v, some e)
                  | none ↦ (record (with_world s v) { jobs = s.jobs ++ job ∷ [] }, none)
                ]
          ]
    ]
  ]

  -- The time that a recovery starts from, and how often the clock was read for it.
  unfoldable pub last_run : Option Storage.Job → World st → ℕ × ℕ
  unfolding day
  last_run none w = (out.env.clock w.asked - day, 1)
  last_run (some job) w = elim job.last_run_time [
    | none ↦ (out.env.clock w.asked - day, 1)
    | some t ↦ (t, 0)
  ]

  -- The times that were missed, and what is done about them.
  unfoldable pub recover_between : Job → Time → Time → Node st → Option (Node st × Option Error)
  recover_between job from now n = elim (get_occurrences_between job.ticker from now) [
    | err e ↦ some (n, some e)
    | ok times ↦ elim (apply_strategy st out.env out.ids job times n) [
      | none ↦ none
      | some m ↦ some (m, none)
    ]
  ]

  -- The recovery of one job, with the error that ends all of it.
  unfoldable pub recover_job : Job → Node st → Option (Node st × Option Error)
  unfolding last_run
  recover_job job n = elim (st.get_job job.id n.world.state) [
    | err e ↦ some (n, some e)
    | ok stored ↦
        let (from, read) = last_run stored n.world in
        recover_between job from (out.env.clock (n.world.asked + read))
          (record n { world = written (read + 1) n.world.state n.world })
  ]

  unfoldable pub recover_jobs : List Job → Node st → Option (Node st × Option Error)
  recover_jobs [] n = some (n, none)
  recover_jobs (job ∷ jobs) n =
      if job.active
      then elim (recover_job job n) [
        | none ↦ none
        | some (m, some e) ↦ some (m, some e)
        | some (m, none) ↦ recover_jobs jobs m
      ]
      else recover_jobs jobs n

  -- The goroutine of the reaper makes a timer of its interval, which panics if that is not positive.
  unfoldable pub start_scheduler : Scheduler st → Option (Scheduler st × Option Error)
  start_scheduler s =
      let recovered = recover_jobs (out.order s.jobs) s.node in
      if s.running then some (s, some already_running) else elim recovered [
        | none ↦ none
        | some (n, some e) ↦ some (record s { node = n }, some e)
        | some (n, none) ↦
            if is_pos s.reaper_interval
            then some (
              record s {
                node = record n { pool_started = true };
                jobs = start_tickers s.jobs;
                running = true;
              },
              none,
            )
            else none
      ]

  -- The tickers are stopped, then the pool and the reaper, whose channels cannot be closed twice.
  unfoldable pub shutdown : Scheduler st → Option (Scheduler st)
  shutdown s =
      let stopped = stop_tickers s.jobs in
      if s.running
      then elim stopped [
        | none ↦ none
        | some jobs ↦
            if s.node.pool_started && s.pool_closed
            then none
            else (if s.reaper_closed
                then none
                else some (record s {
                  node = record s.node { pool_started = false };
                  jobs = jobs;
                  running = false;
                  pool_closed = s.node.pool_started || s.pool_closed;
                  reaper_closed = true;
                }))
      ]
      else some s

  -- The new ticker of an update, or the old one.
  unfoldable pub update_ticker : Bool → JobUpdate → Job → Option Ticker
  update_ticker running u job = elim u.new_ticker [
    | none ↦ some job.ticker
    | some t ↦ elim (stop_ticker job.ticker) [
      | none ↦ none
      | some _ ↦ some (if job.active && not job.paused && running then start_ticker t else t)
    ]
  ]

  unfoldable pub updated_job : Ticker → JobUpdate → Job → Job
  updated_job t u job = record job {
    config = elim u.new_config [ none ↦ job.config | some c ↦ c ];
    ticker = t;
    tasks = out.listing (merged_tasks job.tasks u.added_tasks u.removed_task_ids u.updated_tasks);
    version = suc job.version;
  }

  unfoldable pub update_registered_job :
      JobUpdate → Scheduler st → Option (Scheduler st × Option Error)
  update_registered_job u s = elim (find_job u.job_id s.jobs) [
    | none ↦ some (s, some (not_registered u.job_id))
    | some job ↦
        let (w, failed) = apply_update st out.env u s.node.world in
        if job.version == u.expected_version
        then elim failed [
          | some e ↦ some (with_world s w, some e)
          | none ↦ elim (update_ticker s.running u job) [
            | none ↦ none
            | some t ↦
                some (
                  record (with_world s w) { jobs = replace_job (updated_job t u job) s.jobs },
                  none,
                )
          ]
        ]
        else some (s, some (version_mismatch u.expected_version job.version))
  ]

  -- ListJobs, and the gauges that updateMetrics sets; the first is left if the list cannot be read.
  unfoldable pub list_registered : Scheduler st → List Job
  list_registered s = out.order s.jobs

  unfoldable pub update_metrics : Scheduler st → Scheduler st
  update_metrics s =
      let w = s.node.world in
      let gauges =
        jobs_in_queue (length s.node.task_queue)
        ∷ jobs_paused (length (keep (λ (j : Job). j.paused) s.jobs))
        ∷ [] in
      elim (st.list_running_occurrences w.state) [
        | err e ↦ with_world s (record w { metrics = w.metrics ++ gauges })
        | ok os ↦
            with_world s (record w { metrics = w.metrics ++ jobs_running (length os) ∷ gauges })
      ]
