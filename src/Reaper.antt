-- ===== src/Reaper.antt =====
-- recovery/reaper.go: the occurrences that have run for an hour are taken for stale. The goroutine is
-- a state machine, whose events are its cases of select; a panic of the Go runtime is none.
pub mod Marked
use schedule.Base.{
  zero, suc, Bool, true, false, Option, none, ℤ, pos, is_pos, if◌then◌else◌, ℕ, ◌+◌, some, List, [],
  ◌∷◌, ok, err, after, Result-cases, inl, inr,
}
use schedule.Types.{failed_stale}
use schedule.Storage.{Storage}
use schedule.Storage
use schedule.Ids.{Formats}
use schedule.Executor.{Env, World, ask}
use schedule.Executor.Kept.{Keeps, kept_after}

-- An hour in nanoseconds.
abbrev pub stale_after : ℕ
stale_after = 3600000000000

abbrev pub five_minutes : ℕ
five_minutes = 300000000000

-- An interval of zero is five minutes.
abbrev pub or_default : ℤ → ℤ
or_default (pos zero) = pos five_minutes
or_default i = i

module _ (st : Storage) (env : Env) (ids : Formats) where
  -- The loop over the stale occurrences; an update that fails is passed over.
  unfoldable pub reap_each : List Storage.JobOccurrence → World st → World st
  reap_each [] w = w
  reap_each (o ∷ os) w =
      let now = env.clock w.asked in
      let reaped = record o { status = failed_stale; end_time = some now; updated_at = now } in
      reap_each os (record w {
        state = after w.state (st.update_job_occurrence (env.clock (w.asked + 1)) reaped w.state);
        asked = w.asked + 2;
      })

  unfoldable pub reap_stale_jobs : World st → World st
  unfolding ask
  reap_stale_jobs w = elim (st.list_stale_occurrences (env.clock w.asked) stale_after w.state) [
    | err e ↦ ask st env ids w
    | ok os ↦ reap_each os (ask st env ids w)
  ]

  -- `loops` counts the goroutines that are at their select.
  pub record Reaper : Type 0 where
    pub world : World st
    pub interval : ℤ
    pub stop_closed : Bool
    pub context_done : Bool
    pub loops : ℕ

  unfoldable pub new_reaper : ℤ → World st → Reaper
  new_reaper interval w = record {
    world = w;
    interval = or_default interval;
    stop_closed = false;
    context_done = false;
    loops = 0;
  }

  -- The goroutine makes a timer, which panics on an interval that is not positive.
  unfoldable pub start_reaper : Reaper → Option Reaper
  start_reaper r = if is_pos r.interval then some (record r { loops = suc r.loops }) else none

  unfoldable pub stop_reaper : Reaper → Option Reaper
  stop_reaper r = if r.stop_closed then none else some (record r { stop_closed = true })

  pub data ReaperEvent : Type 0 where
    timer_due see_stop see_done : ReaperEvent

  loop_returns : ℕ → Bool → Reaper → Reaper
  loop_returns (suc others) true r = record r { loops = others }
  loop_returns _ _ r = r

  -- An event that cannot happen changes nothing.
  unfoldable pub reaper_step : ReaperEvent → Reaper → Reaper
  unfolding loop_returns
  reaper_step timer_due r = elim r.loops [
    | zero ↦ r
    | suc n ↦ record r { world = reap_stale_jobs r.world }
  ]
  reaper_step see_stop r = loop_returns r.loops r.stop_closed r
  reaper_step see_done r = loop_returns r.loops r.context_done r

  module _ (P : st.State → Type 0) (keeps : Keeps st P) where
    reap_each_kept :
        (os : List Storage.JobOccurrence) (w : World st) → P w.state → P (reap_each os w).state
    unfolding reap_each
    reap_each_kept [] w p = p
    reap_each_kept (o ∷ os) w p =
        reap_each_kept os _ (kept_after P _ _ (keeps.occurrence_kept _ _ _) p)

    pub reap_stale_jobs_kept : (w : World st) → P w.state → P (reap_stale_jobs w).state
    unfolding reap_stale_jobs ask
    reap_stale_jobs_kept w p =
        elim (Result-cases (st.list_stale_occurrences (env.clock w.asked) stale_after w.state)) [
          | inl (os, e) ↦ rw (e, reap_stale_jobs) (reap_each_kept os _ p)
          | inr (x, e) ↦ rw (e, reap_stale_jobs) p
        ]
