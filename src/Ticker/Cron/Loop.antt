-- ===== src/Ticker/Cron/Loop.antt =====
-- The goroutines `run` of ticker/cron.go beside the calls of Start, Stop, Pause and Resume. An event
-- is one atomic step of either; a process that panics, or an event that cannot happen, has no next
-- state.
-- A Start after a Stop that no goroutine has seen adds one; a round up to its `select` is one step.
use schedule.Base.{
  ℕ, take_at, ◌≡◌, true, false, Option, none, some, List, [], ◌∷◌, arith, if◌then◌else◌,
}
use schedule.Ticker.Window.{Time, within_window}
use schedule.Ticker.Control.{
  Control, ExecutionContext, offer, done, panicked, start, stop, pause, resume, receive,
}
use schedule.Ticker.Cron.{CronTicker}

-- Where a goroutine stands: not running, at the head of the loop, or in one of its `select`s.
pub data Place : Type 0 where
  off head in_pause out_of_window : Place
  timed : Time → Place

-- The goroutine at `place` makes the next step, until another of `others` is chosen.
pub record Loop : Type 0 where
  pub ticker : CronTicker
  pub open ticker use *
  pub place : Place
  pub others : List Place
  pub ch : List ExecutionContext

pub data Event : Type 0 where
  call_start call_stop call_pause call_resume consume : Event
  round timer : Time → Event
  see_stop see_pause : Event
  -- another goroutine goes on
  switch : ℕ → Event

with_control : Loop → Control → Loop
with_control l c = record l { ticker = record l.ticker { control = c } }

-- The head of the loop, up to the `select` that it reaches.
begin_round : Time → Loop → Loop
begin_round now l =
    if l.control.paused
    then record l { place = in_pause }
    else (let next = l.schedule.next now in
        if within_window l.config next
        then record l { place = timed next }
        else record l { place = out_of_window })

fire : Time → Time → Loop → Loop
unfolding offer
fire next actual l =
    let ctx : ExecutionContext = record {
      scheduled_time = next;
      actual_time = actual;
      last_run_time = none;
    } in
    record l { place = head; ch = offer 10 l.ch ctx }

leave : Loop → Option Loop
leave l = if l.control.stop_closed then some (record l { place = off }) else none

-- Every receive from `pauseCh` stores what was sent.
wake : Loop → Option Loop
unfolding with_control
wake l = elim (receive (λ b. b) l.control) [
  | none ↦ none
  | some c ↦ some (with_control (record l { place = head }) c)
]

goroutine : Place → Event → Loop → Option Loop
unfolding begin_round fire leave wake
goroutine head (round now) l = some (begin_round now l)
goroutine in_pause see_stop l = leave l
goroutine in_pause see_pause l = wake l
goroutine out_of_window (timer _) l = some (record l { place = head })
goroutine out_of_window see_stop l = leave l
goroutine out_of_window see_pause l = wake l
goroutine (timed next) (timer actual) l = some (fire next actual l)
goroutine (timed next) see_stop l = leave l
goroutine (timed next) see_pause l = wake l
goroutine _ _ l = none

-- Start spawns a goroutine, beside those that a Stop has not ended yet.
spawn : Loop → Loop
unfolding with_control
spawn l = record (with_control l (start l.control)) { place = head; others = l.place ∷ l.others }

change : ℕ → Loop → Option Loop
change k l = elim (take_at k l.others) [
  | none ↦ none
  | some (p, rest) ↦ some (record l { place = p; others = l.place ∷ rest })
]

call : Event → Loop → Option Loop
unfolding with_control spawn change
call call_start l = if l.control.running then some l else some (spawn l)
call call_stop l = elim (stop l.control) [ panicked ↦ none | done c ↦ some (with_control l c) ]
call call_pause l = some (with_control l (pause l.control))
call call_resume l = some (with_control l (resume l.control))
call consume l = elim l.ch [ [] ↦ none | ctx ∷ rest ↦ some (record l { ch = rest }) ]
call (switch k) l = change k l
call e l = goroutine l.place e l

unfoldable pub step : Event → Loop → Option Loop
unfolding goroutine call
step e l = call e l

unfoldable pub run_events : List Event → Loop → Option Loop
run_events [] l = some l
run_events (e ∷ es) l = elim (step e l) [ none ↦ none | some m ↦ run_events es m ]

-- A paused ticker whose loop waits for Resume goes on with the next activation after Resume, if
-- that is in the window.
resume_goes_on :
    (l : Loop) (now : Time)
    → l.place ≡ in_pause
    → l.control.paused ≡ true
    → l.control.pause_ch ≡ none
    → within_window l.config (l.schedule.next now) ≡ true
    → run_events (call_resume ∷ see_pause ∷ round now ∷ []) l
      ≡ some (record l {
        ticker = record l.ticker { control = record l.control { paused = false } };
        place = timed (l.schedule.next now);
      })
unfolding run_events step resume receive
resume_goes_on l now p q c w = ground arith
