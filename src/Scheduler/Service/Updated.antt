-- ===== src/Scheduler/Service/Updated.antt =====
-- UpdateJob of scheduler/scheduler.go: the registered job beside the stored one.
use schedule.Base.{suc, ◌≡◌, ◌≢◌, ◌⊎◌, ◌↔◌, Option, none, some, Text, Elem, Error, version_mismatch}
use schedule.Ticker.Any.{Ticker}
use schedule.Storage.{Storage}
use schedule.Job.{Task, Job}
use schedule.Update.{JobUpdate, apply_update}
use schedule.Scheduler.Tasks.{wanted_task}
use schedule.Scheduler.Registry.{find_job}
use schedule.Scheduler.Setup.{Scheduler, Outside, with_world}
use schedule.Scheduler.Service.{update_ticker}

module _ (st : Storage) (out : Outside) where
  -- What an update makes of the jobs.
  pub record IsUpdated (u : JobUpdate) (s : Scheduler st) (job : Job) (t : Scheduler st)
      : Type 0 where
    pub now : Job
    pub registered : find_job u.job_id t.jobs ≡ some now
    pub next_version : now.version ≡ suc job.version
    pub next_config : now.config ≡ elim u.new_config [ none ↦ job.config | some c ↦ c ]
    pub next_ticker : update_ticker st out s.running u job ≡ some now.ticker
    pub next_tasks :
        (x : Task)
        → Elem x now.tasks
          ↔ (wanted_task x.id job.tasks u.added_tasks u.removed_task_ids u.updated_tasks ≡ some x)
    pub others : (i : Text) → i ≢ u.job_id → find_job i t.jobs ≡ find_job i s.jobs

  -- A version that is not expected; an error of the stored update; a ticker that panics when it is
  -- stopped; or the job with its update.
  abbrev pub EndsUpdated :
      JobUpdate → Scheduler st → Job → Option (Scheduler st × Option Error) → Type 0
  EndsUpdated u s job result =
      let w = (apply_update st out.env u s.node.world).0 in
      let failed = (apply_update st out.env u s.node.world).1 in
      ((job.version ≢ u.expected_version)
        × (result ≡ some (s, some (version_mismatch u.expected_version job.version))))
      ⊎ ((job.version ≡ u.expected_version)
          × (((e : Error) × (failed ≡ some e) × (result ≡ some (with_world s w, some e)))
              ⊎ ((failed ≡ none)
                  × (((update_ticker st out s.running u job ≡ none) × (result ≡ none))
                      ⊎ ((t : Scheduler st) × (result ≡ some (t, none))
                          × (t.node.world ≡ w)
                          × IsUpdated u s job t)))))
