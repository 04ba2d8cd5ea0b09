-- ===== src/Ticker/Iso8601/Pausing.antt =====
-- Two ways in which the loop of ticker/iso8601.go never runs its tasks again.
use schedule.Base.{
  take_at, sum_of, sum_of-take_at, Option-cases, inl, inr, ◌≡◌, ◌∙◌, refl, true, false, none, some,
  [], ◌∷◌, arith,
}
use schedule.Ticker.Window.{Time, within_window}
use schedule.Ticker.Control.{start, stop, pause, resume, receive}
use schedule.Ticker.Iso8601.{limit_reached}
use schedule.Ticker.Iso8601.Loop.{
  in_pause, Loop, Event, switch, call_resume, see_pause, round, step, run_events, Reach, here, next,
}
use schedule.Ticker.Iso8601.{calculate_next_run}
use schedule.Ticker.Iso8601.Limits.{awaits}

-- The loop of a paused ticker that has runs left, once it waits for Resume, stores the negation of
-- what Resume sends: after Resume, the receive and the next round it is in the same state again.
pub resume_repauses :
    (l : Loop) (now : Time)
    → l.place ≡ in_pause
    → l.control.paused ≡ true
    → l.control.pause_ch ≡ none
    → limit_reached l.repetitions l.run_count ≡ false
    → run_events (call_resume ∷ see_pause ∷ round now ∷ []) l ≡ some l
unfolding run_events step resume receive
resume_repauses l now p q c r = ground arith

-- The next run is out of the window, and no goroutine waits for a run.
pub record IsStuck (l : Loop) : Type 0 where
  pub out : within_window l.config (calculate_next_run l.ticker) ≡ false
  pub not_timed : sum_of awaits (l.place ∷ l.others) ≡ 0

step-IsStuck :
    (e : Event) (l m : Loop)
    → step e l ≡ some m
    → IsStuck l
    → IsStuck m × (m.run_count ≡ l.run_count)
unfolding step start stop pause resume receive calculate_next_run
step-IsStuck (switch k) l m h s = elim (Option-cases (take_at k l.others)) [
  | inl d ↦ ground arith
  | inr ((p, rest), d) ↦ ground (arith, sum_of-take_at awaits k l.others rest p d)
]
step-IsStuck e l m h s = ground arith

-- A ticker whose next run is out of the window, before its start say, never runs again whatever
-- happens: the next run is computed from the count of runs, which does not change.
pub IsStuck-never_runs :
    {l m : Loop} → IsStuck l → Reach l m → IsStuck m × (m.run_count ≡ l.run_count)
IsStuck-never_runs s here = (s, refl)
IsStuck-never_runs {l} s (next {m = m} {n = n} r e h) =
    let (t, c) = IsStuck-never_runs s r in let (u, d) = step-IsStuck e m n h t in (u, d ∙ c)
