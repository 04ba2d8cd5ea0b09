-- ===== src/Ticker/Cron/Paused.antt =====
-- What a paused ticker of ticker/cron.go can still do before Resume is called.
use schedule.Base.{sum_of, ℕ, ◌+◌, ◌≡◌, Bool, true, false, Option, none, some, List, [], ◌∷◌, arith}
use schedule.Ticker.Control.{pause, receive}
use schedule.Ticker.Window.{Time}
use schedule.Ticker.Cron.Loop.{
  see_pause, round, Place, in_pause, timed, Loop, Event, call_resume, call_pause, timer, step,
  run_events,
}

abbrev pub IsOther : Event → Type 0
IsOther call_resume = ⊥
IsOther _ = Unit

-- The runs of the job in a sequence of events: the timer that the goroutine waits for has come.
fired : Event → Place → ℕ
fired (timer _) (timed _) = 1
fired _ _ = 0

unfoldable pub runs_in : List Event → Loop → ℕ
unfolding fired
runs_in [] l = 0
runs_in (e ∷ es) l = fired e l.place + elim (step e l) [ none ↦ 0 | some m ↦ runs_in es m ]

-- How many goroutines wait for the timer of a run.
abbrev pub awaited : Place → ℕ
awaited (timed _) = 1
awaited _ = 0

abbrev pub awaiting : Loop → ℕ
awaiting l = sum_of awaited (l.place ∷ l.others)

abbrev NoResume : Option Bool → Type 0
NoResume (some false) = ⊥
NoResume _ = Unit

-- The flag is set, and `pauseCh` holds no Resume.
record IsHeld (l : Loop) : Type 0 where
  paused : l.control.paused ≡ true
  sent : NoResume l.control.pause_ch

-- A ticker paused while it waits for its timer does not fire: the loop comes to wait for Resume.
pause_holds :
    (l : Loop) (t now : Time)
    → l.place ≡ timed t
    → l.control.paused ≡ false
    → l.control.pause_ch ≡ none
    → run_events (call_pause ∷ see_pause ∷ round now ∷ []) l
      ≡ some (record l {
        ticker = record l.ticker { control = record l.control { paused = true } };
        place = in_pause;
      })
unfolding run_events step pause receive
pause_holds l t now p q c = ground arith
