-- ===== src/Scheduler/Trigger.antt =====
-- What a tick does in scheduler/scheduler.go.
use schedule.Base.{
  ◌+◌, none, false, err, Error, ◌≡◌, refl, ap, true, ◌&&◌, Bool-cases, Option, some, Result-cases,
  inl, inr, List, Text, ok, map, arith, ◌⊎◌, context_error, ok-injective,
}
use schedule.Ticker.Window.{Time}
use schedule.Types.{JobStatus, JobOccurrence, JobConfig, OverlapPolicy, skip}
use schedule.Storage.{Storage}
use schedule.Storage
use schedule.Ids.{Formats, generate_job_occurrence_id}
use schedule.Job.{Job, RunsAmong, is_running_in, runs_one_of, is_running_in_exact}
use schedule.Executor.{Env}
use schedule.Dispatch.{Node, submit}
use schedule.Dispatch.Creates.{CreatesOnce}
use schedule.Dispatch.Once.{Ends, unchanged, submit_created}
use schedule.Scheduler.{
  loaded, stored_new, new_occurrence, race, running_now, handle_job_trigger, is_skip,
}

module _ (st : Storage) (env : Env) (ids : Formats) (marshal : JobConfig → Option Text) where
  module _ (once : CreatesOnce st) where
    race-Ends :
        (node_id : Text) (job : Job) (t : Time) (n : Node st)
        → Ends st once n (race st env ids marshal node_id job t n)
    unfolding race stored_new new_occurrence
    race-Ends node_id job t n =
        let o = new_occurrence st env ids marshal job t n in
        let r = stored_new node_id (marshal job.config) o in
        elim (Result-cases (st.create_job_occurrence r n.world.state)) [
          | inl (s, c) ↦
              rw (c, race) (submit_created st once env ids job o r n _ (refl, refl) c (refl, refl))
          | inr (e, c) ↦ rw (c, race) (inl (_, refl, unchanged st once n _ refl refl, refl))
        ]

    -- A tick, over a storage that creates an occurrence once, ends with its submits made, or panics in
    -- an execution if the pool is not started. An occurrence that it submits was not stored before and
    -- is stored afterwards, and nothing stored is lost.
    pub handle_job_trigger-Ends :
        (node_id : Text) (job : Job) (t : Time) (n : Node st)
        → Ends st once n (handle_job_trigger st env ids marshal node_id job t n)
    unfolding handle_job_trigger
    handle_job_trigger-Ends node_id job t n =
        let same = inl (n, refl, unchanged st once n n refl refl, refl) in
        elim (Result-cases (running_now st env ids marshal job n)) [
          | inl (b, e) ↦ elim (Bool-cases (b && is_skip job.config.overlap_policy)) [
            | inl y ↦ rw (e, y, handle_job_trigger) same
            | inr f ↦ rw (e, f, handle_job_trigger) (race-Ends node_id job t n)
          ]
          | inr (x, e) ↦ rw (e, handle_job_trigger) same
        ]

  is_skip-only : (p : OverlapPolicy) → is_skip p ≡ true → p ≡ skip
  is_skip-only p h = ground arith

  -- The occurrence that a tick is about: pending, for its job and its time, of its node.
  pub record IsDue (node_id : Text) (job : Job) (t : Time) (o : JobOccurrence)
      (r : Storage.JobOccurrence) : Type 0 where
    pub named : o.id ≡ generate_job_occurrence_id ids job.id t
    pub of_job : (o.job_id ≡ job.id) × (o.job_version ≡ job.version) × (o.config ≡ job.config)
    pub pending : (o.status ≡ JobStatus.pending) × (o.start_time ≡ none) × (o.end_time ≡ none)
    pub at_time : (o.scheduled_time ≡ t) × (o.is_recovery_run ≡ false)
    pub stored : (r.id ≡ o.id) × (r.job_id ≡ o.job_id) × (r.scheduled_time ≡ t)
    pub stored_pending :
        (r.status ≡ JobStatus.pending) × (r.start_time ≡ none) × (r.end_time ≡ none)
    pub owned : (r.owning_node_id ≡ node_id) × (r.is_recovery_run ≡ false)

  -- Nothing but the store and the count of the clock's readings differs.
  abbrev At : Node st → st.State → Node st
  At n s = record n { world = record n.world { state = s; asked = n.world.asked + 2 } }

  -- The create fails, and nothing is submitted; or it succeeds, and the occurrence is submitted.
  abbrev pub Creates : Text → Job → Time → Node st → Option (Node st) → Type 0
  Creates node_id job t n result =
      (o : JobOccurrence) × (r : Storage.JobOccurrence) × IsDue node_id job t o r
      × (((e : Error) × (st.create_job_occurrence r n.world.state ≡ err e)
            × (result ≡ some (At n n.world.state)))
          ⊎ ((s : st.State) × (st.create_job_occurrence r n.world.state ≡ ok s)
              × (result ≡ submit st env ids job o (At n s))))

  race-Creates :
      (node_id : Text) (job : Job) (t : Time) (n : Node st)
      → Creates node_id job t n (race st env ids marshal node_id job t n)
  unfolding race stored_new new_occurrence
  race-Creates node_id job t n =
      let o = new_occurrence st env ids marshal job t n in
      let r = stored_new node_id (marshal job.config) o in
      let due : IsDue node_id job t o r = record {
        named = refl;
        of_job = (refl, refl, refl);
        pending = (refl, refl, refl);
        at_time = (refl, refl);
        stored = (refl, refl, refl);
        stored_pending = (refl, refl, refl);
        owned = (refl, refl);
      } in
      elim (Result-cases (st.create_job_occurrence r n.world.state)) [
        | inl (s, c) ↦ (o, r, due, inr (s, c, rw (c, race) refl))
        | inr (e, c) ↦ (o, r, due, inl (e, c, rw (c, race) refl))
      ]

  -- A tick does nothing if the list of running occurrences cannot be read, and nothing if it shows one of the
  -- job and the overlap policy is Skip. In every other case it creates a pending occurrence of the job
  -- for its time and its node; if the create fails, it submits nothing, and if it succeeds, it
  -- submits the occurrence.
  pub handle_job_trigger_overlap :
      (node_id : Text) (job : Job) (t : Time) (n : Node st)
      → let result = handle_job_trigger st env ids marshal node_id job t n in
        (((e : Error) × (st.list_running_occurrences n.world.state ≡ err e)) × (result ≡ some n))
        ⊎ ((os : List Storage.JobOccurrence) × (st.list_running_occurrences n.world.state ≡ ok os)
            × (let overlaps =
                  RunsAmong job.id (map loaded os) × (job.config.overlap_policy ≡ skip) in
                (overlaps × (result ≡ some n)) ⊎ ((overlaps → ⊥) × Creates node_id job t n result)))
  unfolding handle_job_trigger running_now is_running_in
  handle_job_trigger_overlap node_id job t n =
      elim (Result-cases (st.list_running_occurrences n.world.state)) [
        | inr (e, h) ↦ inl ((e, h), rw (handle_job_trigger, h) refl)
        | inl (os, h) ↦ inr (
          os,
          h,
          (let exact = (is_running_in_exact job context_error (map loaded os)).1 in
              let busy = runs_one_of job.id (map loaded os) in
              let raced = race-Creates node_id job t n in
              elim (Bool-cases busy) [
                | inl y ↦ elim (Bool-cases (is_skip job.config.overlap_policy)) [
                  | inl s ↦
                      inl (
                        (exact.0 (ap ok y), is_skip-only _ s),
                        rw (handle_job_trigger, h, y, s) refl,
                      )
                  | inr f ↦
                      inr (λ (r, s). cc (f, ap is_skip s), rw (handle_job_trigger, h, y, f) raced)
                ]
                | inr f ↦ inr (
                  λ (r, s). cc (f, ok-injective (exact.1 r)),
                  rw (handle_job_trigger, h, f) raced,
                )
              ]),
        )
      ]
