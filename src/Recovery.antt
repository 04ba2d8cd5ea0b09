-- ===== src/Recovery.antt =====
-- recovery/recovery.go: what is done about the occurrences of a job that were missed.
pub mod Window
pub mod Once
pub mod Complete
use schedule.Base.{
  ℕ, ◌+◌, ◌-◌, Bool, true, false, Option, none, some, List, [], ◌∷◌, ◌++◌, Text, codes, ok, err,
  length, drop, keep, ltb, if◌then◌else◌, is_pos, pos_part,
}
use schedule.Ticker.Window.{Time}
use schedule.Types.{
  JobStatus, JobOccurrence, BoundedWindow, execute_all, execute_last, mark_as_missed,
  bounded_window, compressed_catch_up, other_recovery,
}
use schedule.Storage.{Storage}
use schedule.Storage
use schedule.Ids.{Formats, generate_job_occurrence_id}
use schedule.Job.{Job}
use schedule.Metrics.{recovery_runs}
use schedule.Executor.{Env, World}
use schedule.Dispatch.{Node, submit}

-- `t.After(now.Add(-d))`
unfoldable pub is_recent : ℕ → Time → Time → Bool
is_recent d now t = ltb now (t + d)

-- The filter by duration of `boundedWindow`.
unfoldable pub recent : BoundedWindow → Time → List Time → List Time
unfolding is_recent
recent w now times =
    if is_pos w.max_duration then keep (is_recent (pos_part w.max_duration) now) times else times

-- The filter by number: the last ones are kept.
unfoldable pub latest : BoundedWindow → List Time → List Time
latest w times =
    let most = pos_part w.max_occurrences in
    if is_pos w.max_occurrences
    then (if ltb most (length times) then drop (length times - most) times else times)
    else times

-- The record that `scheduleRecoveryRun` stores: it has no configuration and no node.
unfoldable pub stored_recovery : JobOccurrence → Storage.JobOccurrence
stored_recovery o = record {
  id = o.id;
  job_id = o.job_id;
  job_version = o.job_version;
  scheduled_time = o.scheduled_time;
  status = o.status;
  owning_node_id = [];
  start_time = none;
  end_time = none;
  config = [];
  is_recovery_run = o.is_recovery_run;
  created_at = o.created_at;
  updated_at = o.updated_at;
}

pub last : List Time → Option Time
last [] = none
last (t ∷ []) = some t
last (t ∷ u ∷ ts) = last (u ∷ ts)

module _ (st : Storage) (env : Env) (ids : Formats) where
  unfoldable pub recovery_occurrence : Job → Time → Node st → JobOccurrence
  recovery_occurrence job t n = record {
    id = generate_job_occurrence_id ids job.id t;
    job_id = job.id;
    job_version = job.version;
    scheduled_time = t;
    status = JobStatus.pending;
    owning_node_id = [];
    start_time = none;
    end_time = none;
    config = job.config;
    is_recovery_run = true;
    created_at = env.clock n.world.asked;
    updated_at = env.clock (n.world.asked + 1);
  }

  unfoldable pub ask_twice : Node st → Node st
  ask_twice n = record n { world = record n.world { asked = n.world.asked + 2 } }

  -- A failed create is taken for an occurrence that exists, and skipped.
  unfoldable pub schedule_recovery_run : Text → Job → Time → Node st → Option (Node st)
  unfolding recovery_occurrence ask_twice
  schedule_recovery_run strategy job t n =
      let occurrence = recovery_occurrence job t n in
      let m = ask_twice n in
      elim (st.create_job_occurrence (stored_recovery occurrence) n.world.state) [
        | err e ↦ some m
        | ok s ↦ submit st env ids job occurrence (record m {
          world = record m.world {
            state = s;
            metrics = m.world.metrics ++ recovery_runs job.name strategy ∷ [];
          };
        })
      ]

  unfoldable pub run_all : Job → List Time → Node st → Option (Node st)
  run_all job [] n = some n
  run_all job (t ∷ ts) n = elim (schedule_recovery_run (codes "full_backfill") job t n) [
    | none ↦ none
    | some m ↦ run_all job ts m
  ]

  unfoldable pub run_last : Job → List Time → Node st → Option (Node st)
  unfolding last
  run_last job times n = elim (last times) [
    | none ↦ some n
    | some t ↦ schedule_recovery_run (codes "latest_only") job t n
  ]

  unfoldable pub run_bounded : Job → List Time → Node st → Option (Node st)
  run_bounded job times n = elim job.config.bounded_window [
    | none ↦ run_all job times n
    | some w ↦
        let m =
          if is_pos w.max_duration
          then record n { world = record n.world { asked = n.world.asked + 1 } }
          else n in
        run_all job (latest w (recent w (env.clock n.world.asked) times)) m
  ]

  -- `ApplyStrategy` for a list that is not empty; for an empty one no branch does anything, save for
  -- the reading of the clock.
  unfoldable pub by_strategy : Job → List Time → Node st → Option (Node st)
  unfolding run_bounded
  by_strategy job times n = elim job.config.recovery_strategy [
    | execute_all ↦ run_all job times n
    | execute_last ↦ run_last job times n
    | mark_as_missed ↦ some n
    | bounded_window ↦ run_bounded job times n
    | compressed_catch_up ↦ run_all job times n
    | other_recovery ↦ run_all job times n
  ]

  -- It never returns an error.
  unfoldable pub apply_strategy : Job → List Time → Node st → Option (Node st)
  unfolding by_strategy
  apply_strategy job [] n = some n
  apply_strategy job (t ∷ ts) n = by_strategy job (t ∷ ts) n
