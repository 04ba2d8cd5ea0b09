-- ===== src/Scheduler.antt =====
-- scheduler/scheduler.go: what a tick of a job's ticker does, and the recovery at the start. The
-- encoding of a configuration is a parameter; nil bytes, which a failure leaves, are the empty text.
pub mod Trigger
pub mod Cluster
pub mod Registry
pub mod Tasks
pub mod Setup
pub mod Service
use schedule.Base.{
  ℕ, ◌+◌, ◌-◌, ◌*◌, Bool, true, false, ◌&&◌, Option, none, some, List, [], ◌∷◌, ◌++◌, map, Text,
  Result, ok, err, map_ok, pos, if◌then◌else◌,
}
use schedule.Ticker.Window.{Time}
use schedule.Ticker.Any.{get_occurrences_between}
use schedule.Types.{
  JobStatus, JobOccurrence, JobConfig, TaskConfig, OverlapPolicy, skip, allow, queue, other_policy,
  other_mode, other_strategy, other_recovery,
}
use schedule.Storage.{Storage}
use schedule.Storage
use schedule.Ids.{Formats, generate_job_occurrence_id}
use schedule.Job.{Job, is_running_in}
use schedule.Executor.{Env, World}
use schedule.Dispatch.{Node, submit}
use schedule.Recovery.{apply_strategy}

-- The zero value of JobConfig.
zero_config : JobConfig
zero_config = record {
  task_execution_mode = other_mode;
  failure_strategy = other_strategy;
  execution_timeout = pos 0;
  overlap_policy = other_policy;
  recovery_strategy = other_recovery;
  bounded_window = none;
  task_config = record { failure_strategy = none; retry_policy = none; task_timeout = none };
}

-- A stored occurrence as the trigger converts it.
unfoldable pub loaded : Storage.JobOccurrence → JobOccurrence
unfolding zero_config
loaded o = record {
  id = o.id;
  job_id = o.job_id;
  job_version = o.job_version;
  scheduled_time = o.scheduled_time;
  status = o.status;
  owning_node_id = o.owning_node_id;
  start_time = o.start_time;
  end_time = o.end_time;
  config = zero_config;
  is_recovery_run = o.is_recovery_run;
  created_at = o.created_at;
  updated_at = o.updated_at;
}

abbrev pub is_skip : OverlapPolicy → Bool
is_skip skip = true
is_skip _ = false

-- The record of a new occurrence: the node and the configuration stand in it alone.
unfoldable pub stored_new : Text → Option Text → JobOccurrence → Storage.JobOccurrence
stored_new node_id config o = record {
  id = o.id;
  job_id = o.job_id;
  job_version = o.job_version;
  scheduled_time = o.scheduled_time;
  status = o.status;
  owning_node_id = node_id;
  start_time = none;
  end_time = none;
  config = elim config [ none ↦ [] | some bytes ↦ bytes ];
  is_recovery_run = o.is_recovery_run;
  created_at = o.created_at;
  updated_at = o.updated_at;
}

module _ (st : Storage) (env : Env) (ids : Formats) (marshal : JobConfig → Option Text) where
  unfoldable pub new_occurrence : Job → Time → Node st → JobOccurrence
  new_occurrence job t n = record {
    id = generate_job_occurrence_id ids job.id t;
    job_id = job.id;
    job_version = job.version;
    scheduled_time = t;
    status = JobStatus.pending;
    owning_node_id = [];
    start_time = none;
    end_time = none;
    config = job.config;
    is_recovery_run = false;
    created_at = env.clock n.world.asked;
    updated_at = env.clock (n.world.asked + 1);
  }

  -- The create, and the submit if it succeeds.
  unfoldable pub race : Text → Job → Time → Node st → Option (Node st)
  unfolding new_occurrence
  race node_id job t n =
      let occurrence = new_occurrence job t n in
      let m = record n { world = record n.world { asked = n.world.asked + 2 } } in
      elim (st.create_job_occurrence (stored_new node_id (marshal job.config) occurrence)
        n.world.state) [
          | err e ↦ some m
          | ok s ↦
              submit st env ids job occurrence (record m { world = record m.world { state = s } })
        ]

  unfoldable pub running_now : Job → Node st → Result Bool
  running_now job n =
      is_running_in job (map_ok (map loaded) (st.list_running_occurrences n.world.state))

  unfoldable pub handle_job_trigger : Text → Job → Time → Node st → Option (Node st)
  handle_job_trigger node_id job t n = elim (running_now job n) [
    | err e ↦ some n
    | ok running ↦
        if running && is_skip job.config.overlap_policy then some n else race node_id job t n
  ]
