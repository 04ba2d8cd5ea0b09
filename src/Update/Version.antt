-- ===== src/Update/Version.antt =====
-- The expected version of update/update.go after an update that stops half way.
use schedule.Base.{
  ℕ, suc, ◌+◌, ◌==◌, ◌≡◌, refl, sym, ap, ◌∙◌, true, false, some, List, ◌∷◌, ok, err, Error,
  version_mismatch, arith,
}
use schedule.Ticker.Window.{Time}
use schedule.Storage.{Storage}
use schedule.Storage
use schedule.Job.{Task}
use schedule.Executor.{Env, World}
use schedule.Badger.Database.{Database, DatabaseLaws, IsFaithful}
use schedule.Badger.Records.Stored.{get-update}
use schedule.Badger.Operations.{Json, badger_storage, get_job, update_job}
use schedule.Update.{
  JobUpdate, Stepped, and_then, write, later, add_tasks, added, apply_update_transaction, raised,
  apply_update,
}

same_version : (n : ℕ) → (n == n) ≡ true
same_version n = ground arith

next_version : (n : ℕ) → (suc n == n) ≡ false
next_version n = ground arith

-- A job that is written is read back with the time of the write.
abbrev pub ReadsBack : Storage → Type 0
ReadsBack st =
    (now : Time) (job : Storage.Job) (s t : st.State)
    → st.update_job now job s ≡ ok t
    → st.get_job job.id t ≡ ok (some (record job { updated_at = now }))

pub badger-ReadsBack :
    (b : Database)
    → DatabaseLaws b
    → (json : Json) → IsFaithful json.job
    → ReadsBack (badger_storage b json)
unfolding badger_storage get_job update_job
badger-ReadsBack b laws json faithful now job s t h =
    get-update b json.job laws faithful _ _ _ _ s t h

module _ (st : Storage) (env : Env) where
  apply_update-transaction :
      (u : JobUpdate) (w : World st) (job : Storage.Job)
      → st.get_job u.job_id w.state ≡ ok (some job)
      → job.version ≡ u.expected_version
      → apply_update st env u w
        ≡ apply_update_transaction st env
            (raised st env job u (env.clock w.asked))
            u
            (later st env 1 w)
  unfolding apply_update
  apply_update-transaction u w job g e =
      rw (apply_update, g, e, same_version u.expected_version) refl

  apply_update_conflict :
      (u : JobUpdate) (w : World st) (job : Storage.Job)
      → st.get_job u.job_id w.state ≡ ok (some job)
      → job.version ≡ suc u.expected_version
      → apply_update st env u w
        ≡ (w, some (version_mismatch u.expected_version (suc u.expected_version)))
  unfolding apply_update
  apply_update_conflict u w job g e = rw (apply_update, g, e, next_version u.expected_version) refl

  -- The world once the job is written.
  abbrev pub job_written : st.State → World st → World st
  job_written s w = record (later st env 1 (later st env 1 w)) { state = s }

  -- The first write of an update that then fails to add its first task, and what is left.
  abbrev pub EndsHalfway : JobUpdate → st.State → Error → Stepped st env → Type 0
  EndsHalfway u s e result =
      (v : World st) × (result ≡ (v, some e))
      × (v.state ≡ s)
      × (apply_update st env u v
          ≡ (v, some (version_mismatch u.expected_version (suc u.expected_version))))

  -- Over a storage that reads a written job back, an update of a job with the expected version whose
  -- job is written, but whose first new task is not, returns that error and leaves the job with the
  -- next version: the same update, tried again, fails with a version mismatch.
  pub apply_update_halfway :
      (u : JobUpdate) (w : World st) (job : Storage.Job) (s : st.State) (task : Task)
      (tasks : List Task) (e : Error)
      → ReadsBack st
      → st.get_job u.job_id w.state ≡ ok (some job)
      → job.id ≡ u.job_id
      → job.version ≡ u.expected_version
      → st.update_job (env.clock (w.asked + 1)) (raised st env job u (env.clock w.asked)) w.state
        ≡ ok s
      → u.added_tasks ≡ task ∷ tasks
      → st.create_task (added st env u.job_id task (job_written s w)) s ≡ err e
      → EndsHalfway u s e (apply_update st env u w)
  unfolding apply_update_transaction and_then write add_tasks raised
  apply_update_halfway u w job s task tasks e reads g i v h a c =
      let half = record (later st env 2 (job_written s w)) { state = s } in
      let found =
        reads (env.clock (w.asked + 1)) (raised st env job u (env.clock w.asked)) w.state s h in
      (
        half,
        apply_update-transaction u w job g v
            ∙ rw (apply_update_transaction, h, a, add_tasks, c) refl,
        refl,
        apply_update_conflict u half
            (record (raised st env job u (env.clock w.asked)) {
              updated_at = env.clock (w.asked + 1);
            })
            (sym (ap (λ id. st.get_job id s) i) ∙ found) (ap suc v),
      )
