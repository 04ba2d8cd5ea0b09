-- ===== src/Update.antt =====
-- update/update.go: the update of a stored job with its expected version. A write before an error
-- stays; the two functions that serialize a configuration return empty bytes.
pub mod Diff
pub mod Version
use schedule.Base.{
  ℕ, suc, ◌+◌, ◌==◌, Bool, ◌&&◌, Option, none, some, List, [], ◌∷◌, Text, Result, ok, err, Error,
  not_found, version_mismatch, ltb, if◌then◌else◌,
}
use schedule.Ticker.Window.{Time}
use schedule.Ticker.Any.{Ticker}
use schedule.Types.{JobStatus, JobConfig, UpdatePolicy, immediate, graceful, windowed, other_update}
use schedule.Storage.{Storage}
use schedule.Storage
use schedule.Job.{Task}
use schedule.Executor.{Env, World}

pub record JobUpdate : Type 0 where
  pub job_id : Text
  pub expected_version : ℕ
  pub new_config : Option JobConfig
  pub new_ticker : Option Ticker
  pub added_tasks : List Task
  pub removed_task_ids : List Text
  pub updated_tasks : List Task
  pub policy : UpdatePolicy

-- `serializeConfig`
serialize_config : JobConfig → Text
serialize_config config = []

abbrev week : ℕ
week = 604800000000000

earlier : Time → Option Time → Option Time
earlier t none = some t
earlier t (some b) = if ltb t b then some t else some b

-- The earliest time after `now`.
earliest : Time → List Storage.JobOccurrence → Option Time → Option Time
unfolding earlier
earliest now [] best = best
earliest now (o ∷ os) best =
    let taken = earliest now os (earlier o.scheduled_time best) in
    let passed = earliest now os best in if ltb now o.scheduled_time then taken else passed

module _ (st : Storage) (env : Env) where
  abbrev pub Stepped : Type 0
  Stepped = World st × Option Error

  -- `if err := ...; err != nil { return err }`
  unfoldable pub and_then : Stepped → (World st → Stepped) → Stepped
  and_then (w, none) rest = rest w
  and_then (w, some e) rest = (w, some e)

  unfoldable pub write : Result st.State → World st → Stepped
  write (ok s) w = (record w { state = s }, none)
  write (err e) w = (w, some e)

  abbrev pub later : ℕ → World st → World st
  later n w = record w { asked = w.asked + n }

  unfoldable pub added : Text → Task → World st → Storage.Task
  added job_id task w = record {
    id = task.id;
    job_id = job_id;
    name = task.name;
    config = [];
    order = task.order;
    created_at = env.clock w.asked;
    updated_at = env.clock (w.asked + 1);
  }

  unfoldable pub add_tasks : Text → List Task → World st → Stepped
  add_tasks job_id [] w = (w, none)
  add_tasks job_id (task ∷ tasks) w =
      and_then (write (st.create_task (added job_id task w) w.state) (later 2 w))
        (λ v. add_tasks job_id tasks v)

  unfoldable pub remove_tasks : List Text → World st → Stepped
  remove_tasks [] w = (w, none)
  remove_tasks (id ∷ ids) w =
      and_then (write (st.delete_task id w.state) w) (λ v. remove_tasks ids v)

  unfoldable pub update_tasks : List Task → World st → Stepped
  update_tasks [] w = (w, none)
  update_tasks (task ∷ tasks) w = elim (st.get_task task.id w.state) [
    | err e ↦ (w, some e)
    | ok none ↦ (w, some (not_found task.id))
    | ok (some old) ↦
        let changed = record old {
          name = task.name;
          config = [];
          order = task.order;
          updated_at = env.clock w.asked;
        } in
        and_then (write (st.update_task (env.clock (w.asked + 1)) changed w.state) (later 2 w))
          (λ v. update_tasks tasks v)
  ]

  -- The pending occurrences with a time that the test admits are canceled, up to an error.
  unfoldable pub cancel_those : (Time → Bool) → List Storage.JobOccurrence → World st → Stepped
  cancel_those test [] w = (w, none)
  cancel_those test (o ∷ os) w =
      let canceled = record o { status = JobStatus.canceled; updated_at = env.clock w.asked } in
      let now = env.clock (w.asked + 1) in
      if test o.scheduled_time
      then and_then (write (st.update_job_occurrence now canceled w.state) (later 2 w))
          (λ v. cancel_those test os v)
      else cancel_those test os w

  unfoldable pub apply_immediate_update : Text → Time → World st → Stepped
  apply_immediate_update id now w = elim (st.list_pending_occurrences id w.state) [
    | err e ↦ (w, some e)
    | ok os ↦ cancel_those (λ t. ltb now t) os w
  ]

  unfoldable pub apply_graceful_update : Text → Time → World st → Stepped
  unfolding earliest
  apply_graceful_update id now w = elim (st.list_pending_occurrences id w.state) [
    | err e ↦ (w, some e)
    | ok os ↦ elim (earliest now os none) [
      | none ↦ apply_immediate_update id now w
      | some next ↦ cancel_those (λ t. ltb next t) os w
    ]
  ]

  unfoldable pub apply_windowed_update : Text → Time → World st → Stepped
  apply_windowed_update id now w = elim (st.list_pending_occurrences id w.state) [
    | err e ↦ (w, some e)
    | ok os ↦ cancel_those (λ t. ltb now t && ltb t (now + week)) os w
  ]

  by_policy : UpdatePolicy → Text → Time → World st → Stepped
  by_policy immediate id now w = apply_immediate_update id now w
  by_policy graceful id now w = apply_graceful_update id now w
  by_policy windowed id now w = apply_windowed_update id now w
  by_policy other_update id now w = apply_immediate_update id now w

  unfoldable pub apply_schedule_update : Text → JobUpdate → World st → Stepped
  unfolding by_policy
  apply_schedule_update job_id u w = elim u.new_ticker [
    | none ↦ (w, none)
    | some t ↦ by_policy u.policy job_id (env.clock w.asked) (later 1 w)
  ]

  unfoldable pub apply_update_transaction : Storage.Job → JobUpdate → World st → Stepped
  apply_update_transaction job u w =
      and_then (write (st.update_job (env.clock w.asked) job w.state) (later 1 w)) (λ w1.
        and_then (add_tasks u.job_id u.added_tasks w1) (λ w2.
          and_then (remove_tasks u.removed_task_ids w2) (λ w3.
            and_then (update_tasks u.updated_tasks w3) (λ w4. apply_schedule_update job.id u w4))))

  -- The job with its new version.
  unfoldable pub raised : Storage.Job → JobUpdate → Time → Storage.Job
  unfolding serialize_config
  raised job u now = record job {
    config = elim u.new_config [ none ↦ job.config | some c ↦ serialize_config c ];
    version = suc job.version;
    updated_at = now;
  }

  unfoldable pub apply_update : JobUpdate → World st → Stepped
  apply_update u w = elim (st.get_job u.job_id w.state) [
    | err e ↦ (w, some e)
    | ok none ↦ (w, some (not_found u.job_id))
    | ok (some job) ↦
        if job.version == u.expected_version
        then apply_update_transaction (raised job u (env.clock w.asked)) u (later 1 w)
        else (w, some (version_mismatch u.expected_version job.version))
  ]
