-- ===== src/Ticker/Once/Runs.antt =====
-- How often the job of a ticker of ticker/once.go runs, whatever its goroutines and its callers do.
use schedule.Base.{
  Option-cases, inl, inr, ◌⊎◌, ⊎-elim, refl, ℕ, ◌+◌, ◌≤◌, ◌≡◌, true, some, ◌∷◌, arith, take_at,
  sum_of, sum_of-take_at,
}
use schedule.Ticker.Control.{start, stop, pause, resume, receive}
use schedule.Ticker.Once.Loop.{
  Place, off, timed, Loop, Event, call_start, timer, switch, step, Reach, here, next,
}

-- Whether an event is the timer of a goroutine that waits for it: a run of the job.
abbrev fires : Event → Place → ℕ
fires (timer t) timed = 1
fires _ _ = 0

-- The runs on the way to a state.
abbrev pub runs : {l m : Loop} → Reach l m → ℕ
runs here = 0
runs (next {m = m} r e h) = runs r + fires e m.place

-- The goroutines that have not ended.
abbrev pub lives : Place → ℕ
lives off = 0
lives _ = 1

abbrev pub goroutines : Loop → ℕ
goroutines l = sum_of lives (l.place ∷ l.others)

-- The calls of Start on the way to a state.
abbrev is_start : Event → ℕ
is_start call_start = 1
is_start _ = 0

abbrev pub starts : {l m : Loop} → Reach l m → ℕ
starts here = 0
starts (next r e h) = starts r + is_start e

-- A step that runs the job ends a goroutine; a Start makes one, unless the job has run.
record Spent (e : Event) (l m : Loop) : Type 0 where
  spent : fires e l.place + goroutines m ≤ goroutines l + is_start e
  spent_executed : l.executed ≡ true → fires e l.place + goroutines m ≤ goroutines l
  executed_kept : l.executed ≡ true → m.executed ≡ true
  executed_by : (fires e l.place ≡ 0) ⊎ (m.executed ≡ true)

step-Spent : (e : Event) (l m : Loop) → step e l ≡ some m → Spent e l m
unfolding step start stop pause resume receive
step-Spent (switch k) l m h = elim (Option-cases (take_at k l.others)) [
  | inl d ↦ ground arith
  | inr ((p, rest), d) ↦ ground (arith, sum_of-take_at lives k l.others rest p d)
]
step-Spent e l m h = ground arith

-- Whatever the calls, the goroutines and the timers do, the runs are at most as many as the goroutines that
-- there are at first and the calls of Start together; after a run the ticker has been executed; and if
-- it was executed at first, the runs are at most as many as the goroutines that there are at first.
pub runs-le-goroutines :
    {l m : Loop} (r : Reach l m)
    → (runs r + goroutines m ≤ goroutines l + starts r)
      × ((runs r ≡ 0) ⊎ (m.executed ≡ true))
      × (l.executed ≡ true → (m.executed ≡ true) × (runs r + goroutines m ≤ goroutines l))
runs-le-goroutines {l} here = (omega arith, inl refl, λ x. (x, omega arith))
runs-le-goroutines {l} (next {m = m} {n = n} r e h) =
    let (few, ran, none_new) = runs-le-goroutines r in
    let s = step-Spent e m n h in
    (
      omega (arith, s.spent),
      ⊎-elim ran (λ z. ⊎-elim s.executed_by (λ f. inl (omega arith)) (λ x. inr x))
          (λ x. inr (s.executed_kept x)),
      λ x. let (y, k) = none_new x in (s.executed_kept y, omega (arith, s.spent_executed y)),
    )
