-- ===== src/Examples/Schedulers.antt =====
-- Recoveries, ticks and several schedulers over one database in memory.
use schedule.Base.{
  Error, err, ℕ, ◌≡◌, refl, ◌⊎◌, true, Option, none, some, List, [], ◌∷◌, Text, codes, pos, map, ok,
  text_eq, has_prefix, contains,
}
use schedule.Types.{JobConfig, BoundedWindow, bounded_window, skip}
use schedule.Storage
use schedule.Job.{Job, RunsAmong}
use schedule.Dispatch.{Node}
use schedule.Dispatch.Creates.{CreatesOnce, RefusesStored}
use schedule.Dispatch.Once.{Ends}
use schedule.Recovery.{apply_strategy}
use schedule.Recovery.Once.{apply_strategy-Ends}
use schedule.Recovery.Complete.{EndsComplete, apply_strategy_complete}
use schedule.Recovery.Window.{RunsChosen, apply_strategy-Chosen}
use schedule.Scheduler.{loaded, handle_job_trigger}
use schedule.Scheduler.Trigger.{Creates, handle_job_trigger_overlap}
use schedule.Scheduler.Cluster.{
  Event, tick, recover, take_task, Cluster, run_cluster, EndsOnce, run_cluster-IsOnce,
}
use schedule.Badger.Keys.{occurrence_key}
use schedule.Badger.Records.{create_record, list_records}
use schedule.Badger.Operations.{badger_storage, list_running_occurrences, create_job_occurrence}
use schedule.Examples.Stores.{stored}
use schedule.Badger.Once.{badger_creates_once, NeverFails, badger_refuses_stored}
use schedule.Samples.Memory.{memory, memory-laws, memory_reads, empty_memory}
use schedule.Samples.Encoding.{sample_json}
use schedule.Examples.Jobs.{plain, in_steps, world_outside, store, before}

abbrev once : CreatesOnce store
once = badger_creates_once memory memory-laws sample_json

abbrev idle : Node store
idle = record { world = before; pool_started = true; task_queue = []; submitted = [] }

abbrev no_bytes : JobConfig → Option Text
no_bytes config = none

apply_strategy-Ends_example :
    Ends store once idle
      (apply_strategy store world_outside plain in_steps (1000000000 ∷ 2000000000 ∷ []) idle)
apply_strategy-Ends_example =
    apply_strategy-Ends store once world_outside plain in_steps (1000000000 ∷ 2000000000 ∷ []) idle

abbrev last_two : BoundedWindow
last_two = record { max_occurrences = pos 2; max_duration = pos 30 }

abbrev windowed : Job
windowed = record in_steps {
  config = record in_steps.config {
    recovery_strategy = bounded_window;
    bounded_window = some last_two;
  };
}

apply_strategy-Chosen_example :
    RunsChosen store world_outside plain last_two windowed
      (60 ∷ 80 ∷ 90 ∷ 95 ∷ [])
      idle
      (apply_strategy store world_outside plain windowed (60 ∷ 80 ∷ 90 ∷ 95 ∷ []) idle)
apply_strategy-Chosen_example =
    apply_strategy-Chosen store world_outside plain last_two windowed (60 ∷ 80 ∷ 90 ∷ 95 ∷ []) idle
      refl refl

-- Two nodes whose pools are started, and one occurrence that both of them want to run.
abbrev two_nodes : Cluster store
two_nodes = record { state = before.state; node = λ i. idle; history = [] }

abbrev both : List (ℕ × Event)
both =
    (0, tick in_steps 1000000000)
    ∷ (1, tick in_steps 1000000000)
    ∷ (0, take_task)
    ∷ (1, recover in_steps (1000000000 ∷ 2000000000 ∷ []))
    ∷ []

abbrev names : ℕ → Text
names k = k ∷ []

run_cluster-IsOnce_example :
    EndsOnce store world_outside plain no_bytes names once
      (run_cluster store world_outside plain no_bytes names both two_nodes)
run_cluster-IsOnce_example =
    run_cluster-IsOnce store world_outside plain no_bytes names once both two_nodes
      (record { distinct = tt; stored = tt })

no_runs : store.list_running_occurrences before.state ≡ ok []
unfolding before badger_storage list_running_occurrences list_records stored create_job_occurrence
    create_record empty_memory memory sample_json has_prefix occurrence_key text_eq contains
no_runs = refl

handle_job_trigger_overlap_example :
    let result =
      handle_job_trigger store world_outside plain no_bytes (codes "a") in_steps 1000000000 idle in
    (((e : Error) × (store.list_running_occurrences idle.world.state ≡ err e))
      × (result ≡ some idle))
    ⊎ ((os : List Storage.JobOccurrence) × (store.list_running_occurrences idle.world.state ≡ ok os)
        × (let overlaps =
              RunsAmong in_steps.id (map loaded os) × (in_steps.config.overlap_policy ≡ skip) in
            (overlaps × (result ≡ some idle))
            ⊎ ((overlaps → ⊥)
                × Creates store world_outside plain no_bytes
                    (codes "a")
                    in_steps
                    1000000000
                    idle
                    result)))
handle_job_trigger_overlap_example =
    handle_job_trigger_overlap store world_outside plain no_bytes (codes "a") in_steps 1000000000
      idle

-- Nothing but an occurrence that is there makes a create fail.
never_fails : NeverFails memory memory-laws sample_json
unfolding memory sample_json
never_fails = record {
  reads = memory_reads;
  writes = λ key v e db h. cc (h);
  encodes = λ o h. cc (h);
}

store_refuses : RefusesStored store once
store_refuses = badger_refuses_stored memory memory-laws sample_json never_fails

apply_strategy_complete_example :
    EndsComplete store once store_refuses world_outside plain in_steps
      (1000000000 ∷ 2000000000 ∷ [])
      idle
      (apply_strategy store world_outside plain in_steps (1000000000 ∷ 2000000000 ∷ []) idle)
apply_strategy_complete_example =
    apply_strategy_complete store once store_refuses world_outside plain in_steps
      (1000000000 ∷ 2000000000 ∷ []) idle
