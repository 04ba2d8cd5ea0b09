-- ===== src/Scheduler/Service/Registered.antt =====
-- RegisterJob of scheduler/scheduler.go over a storage that creates a job once.
use schedule.Base.{
  ◌≡◌, refl, ◌∙◌, ◌⊎◌, inl, inr, Option, none, some, Option-cases, List, [], ◌∷◌, ◌++◌, Text, ok,
  Error, Result-cases, text_eq_refl,
}
use schedule.Storage.{Storage}
use schedule.Storage
use schedule.Job.{Task, Job}
use schedule.Executor.{World}
use schedule.Badger.Database.{Database, DatabaseLaws}
use schedule.Badger.Once.{Present, Present-Wrote}
use schedule.Badger.Records.Stored.{create_record-ok}
use schedule.Badger.Keys.{job_key}
use schedule.Badger.Operations.{Json, badger_storage, create_job, create_task}
use schedule.Scheduler.Registry.{find_job}
use schedule.Scheduler.Setup.{Scheduler, Outside, with_world, written}
use schedule.Scheduler.Service.{stored_job, stored_task, create_tasks, register_job}

-- CreateJob fails for a job that is stored, and CreateTask removes no job.
pub record CreatesJobs (st : Storage) : Type 1 where
  pub Stored : Text → st.State → Type 0
  pub now_stored : (j : Storage.Job) (s t : st.State) → st.create_job j s ≡ ok t → Stored j.id t
  pub not_before : (j : Storage.Job) (s t : st.State) → st.create_job j s ≡ ok t → Stored j.id s → ⊥
  pub task_kept :
      (k : Storage.Task) (i : Text) (s t : st.State)
      → st.create_task k s ≡ ok t
      → Stored i s
      → Stored i t

pub badger_creates_jobs :
    (b : Database) → DatabaseLaws b → (json : Json) → CreatesJobs (badger_storage b json)
unfolding badger_storage create_job create_task
badger_creates_jobs b laws json = record {
  Stored = λ i db. Present b laws json (job_key i) db;
  now_stored = λ j s t h.
      let (m, w) = create_record-ok b json.job _ _ j s t h in
      (w.written, laws.get-set _ w.written _ s t w.sets ∙ rw (text_eq_refl (job_key j.id)) refl);
  not_before = λ j s t h (v, e). let (m, w) = create_record-ok b json.job _ _ j s t h in cc (m, e);
  task_kept = λ k i s t h.
      Present-Wrote b laws json json.task _ _ k s t (create_record-ok b json.task _ _ k s t h).1;
}

module _ (st : Storage) (once : CreatesJobs st) (out : Outside) where
  abbrev HasJob : Text → Scheduler st → Type 0
  HasJob i s = once.Stored i s.node.world.state

  -- The job is registered and stored; or nothing is; or it is stored, but not registered.
  abbrev pub EndsRegistered : Job → Scheduler st → Scheduler st × Option Error → Type 0
  EndsRegistered job s result =
      ((result.1 ≡ none)
        × (result.0.jobs ≡ s.jobs ++ job ∷ [])
        × (HasJob job.id s → ⊥)
        × HasJob job.id result.0)
      ⊎ (((e : Error) × (result.1 ≡ some e))
          × (result.0.jobs ≡ s.jobs)
          × ((result.0.node.world.state ≡ s.node.world.state)
              ⊎ ((HasJob job.id s → ⊥) × HasJob job.id result.0)))

  create_tasks_kept :
      (i job_id : Text) (tasks : List Task) (w : World st)
      → once.Stored i w.state
      → once.Stored i (create_tasks st out job_id tasks w).0.state
  unfolding create_tasks
  create_tasks_kept i job_id [] w h = h
  create_tasks_kept i job_id (task ∷ tasks) w h =
      elim (Option-cases (out.marshal_task task.config)) [
        | inl d ↦ rw (d, create_tasks) h
        | inr (config, d) ↦
            elim (Result-cases (st.create_task (stored_task st out job_id task config w) w.state)) [
              | inl (t, c) ↦
                  rw (d, c, create_tasks)
                    (create_tasks_kept i job_id tasks (written 2 t w)
                      (once.task_kept _ i w.state t c h))
              | inr (e, c) ↦ rw (d, c, create_tasks) h
            ]
      ]

  tasks_created :
      (job : Job) (s : Scheduler st) (r : World st × Option Error)
      → (HasJob job.id s → ⊥)
      → once.Stored job.id r.0.state
      → EndsRegistered job s (elim r.1 [
        | some e ↦ (with_world s r.0, some e)
        | none ↦ (record (with_world s r.0) { jobs = s.jobs ++ job ∷ [] }, none)
      ])
  tasks_created job s (v, none) n h = inl (refl, refl, n, h)
  tasks_created job s (v, some e) n h = inr ((e, refl), refl, inr (n, h))

  -- Over a storage that creates a job once, RegisterJob either registers the job, which was not stored
  -- and is stored then; or fails and registers nothing, and either writes nothing, or leaves the job
  -- stored, which it was not. So a job that is stored, by an earlier process or by a registration that failed at a
  -- task, is never registered.
  pub register_job_once :
      (job : Job) (s : Scheduler st) → EndsRegistered job s (register_job st out job s)
  unfolding register_job stored_job
  register_job_once job s = elim (Option-cases (find_job job.id s.jobs)) [
    | inr (j, d) ↦ rw (d, register_job) (inr ((_, refl), refl, inl refl))
    | inl d ↦ elim (Option-cases (out.marshal job.config)) [
      | inl m ↦ rw (d, m, register_job) (inr ((_, refl), refl, inl refl))
      | inr (config, m) ↦
          elim (Result-cases
            (st.create_job (stored_job st out job config s.node.world) s.node.world.state)) [
              | inr (e, c) ↦ rw (d, m, c, register_job) (inr ((_, refl), refl, inl refl))
              | inl (t, c) ↦
                  rw (d, m, c, register_job)
                    (tasks_created job s
                      (create_tasks st out job.id job.tasks (written 2 t s.node.world))
                      (once.not_before _ s.node.world.state t c)
                      (create_tasks_kept job.id job.id job.tasks (written 2 t s.node.world)
                        (once.now_stored _ s.node.world.state t c)))
            ]
    ]
  ]
