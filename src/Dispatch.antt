-- ===== src/Dispatch.antt =====
-- How concurrency/pool.go takes the execution of an occurrence: `Submit` runs it at once before Start
-- and after Stop, and else queues it for a worker. A full queue, on which Submit waits for a worker,
-- is not told from one with room.
pub mod Creates
pub mod Once
pub mod Pooled
use schedule.Base.{Bool, Option, none, some, List, [], ◌∷◌, ◌++◌, if◌then◌else◌}
use schedule.Types.{JobOccurrence}
use schedule.Storage.{Storage}
use schedule.Ids.{Formats}
use schedule.Job.{Job}
use schedule.Executor.{Env, World}
use schedule.Executor.Groups.{execute_job_occurrence}

pub record Node (st : Storage) : Type 0 where
  pub world : World st
  pub pool_started : Bool
  pub task_queue : List (Job × JobOccurrence)
  -- every occurrence that was submitted, in order
  pub submitted : List JobOccurrence

module _ (st : Storage) (env : Env) (ids : Formats) where
  unfoldable pub submit : Job → JobOccurrence → Node st → Option (Node st)
  submit job occurrence n =
      let m = record n { submitted = n.submitted ++ occurrence ∷ [] } in
      if n.pool_started
      then some (record m { task_queue = n.task_queue ++ (job, occurrence) ∷ [] })
      else elim (execute_job_occurrence st env ids job occurrence n.world) [
        | none ↦ none
        | some (x, w) ↦ some (record m { world = w })
      ]

  -- A worker takes the first task and runs it; with none it waits.
  unfoldable pub work : Node st → Option (Node st)
  work n = elim n.task_queue [
    | [] ↦ some n
    | (job, occurrence) ∷ tasks ↦ elim (execute_job_occurrence st env ids job occurrence n.world) [
      | none ↦ none
      | some (x, w) ↦ some (record n { world = w; task_queue = tasks })
    ]
  ]
