-- ===== src/Ticker/Iso8601/Loop.antt =====
-- The goroutines `run` of ticker/iso8601.go beside the calls of Start, Stop, Pause and Resume. An
-- event is one atomic step of either; a process that panics, or an event that cannot happen, has
-- no next state.
-- A Start after a Stop that no goroutine has seen adds one; a round up to its `select` is one step.
use schedule.Base.{
  ℕ, take_at, suc, ◌≡◌, Bool, not, Option, none, some, List, [], ◌∷◌, if◌then◌else◌,
}
use schedule.Ticker.Window.{Time, after_end, within_window}
use schedule.Ticker.Control.{
  Control, ExecutionContext, offer, done, panicked, start, stop, pause, resume, receive,
}
use schedule.Ticker.Iso8601.{Iso8601Ticker, limit_reached, calculate_next_run}

-- Where a goroutine stands: not running, at the head of the loop, or in one of its `select`s.
pub data Place : Type 0 where
  off head in_pause out_of_window : Place
  timed : Time → Place

-- The goroutine at `place` makes the next step, until another of `others` is chosen.
pub record Loop : Type 0 where
  pub ticker : Iso8601Ticker
  pub open ticker use *
  pub place : Place
  pub others : List Place
  -- the buffer of `ch`, oldest first
  pub ch : List ExecutionContext

pub data Event : Type 0 where
  call_start call_stop call_pause call_resume consume : Event
  -- the goroutine: a round at a time, its timer at two clock readings, its control channels
  round : Time → Event
  timer : Time → Time → Event
  see_stop see_pause : Event
  -- another goroutine goes on
  switch : ℕ → Event

with_control : Loop → Control → Loop
with_control l c = record l { ticker = record l.ticker { control = c } }

-- The head of the loop, as one step, up to the `select` that it reaches.
begin_round : Time → Loop → Loop
begin_round now l =
    if limit_reached l.repetitions l.run_count
    then record l { place = off }
    else (if l.control.paused
        then record l { place = in_pause }
        else (let next = calculate_next_run l.ticker in
            if within_window l.config next
            then record l { place = timed next }
            else (if after_end now l.config.end_time
                then record l { place = off }
                else record l { place = out_of_window })))

fire : Time → Time → Time → Loop → Loop
unfolding offer
fire next actual now l =
    let ctx : ExecutionContext = record {
      scheduled_time = next;
      actual_time = actual;
      last_run_time = l.last_run_time;
    } in
    record {
      ticker = record l.ticker { run_count = suc l.run_count; last_run_time = some now };
      place = head;
      others = l.others;
      ch = offer 10 l.ch ctx;
    }

-- `case <-t.stopCh`
leave : Loop → Option Loop
leave l = if l.control.stop_closed then some (record l { place = off }) else none

-- `case pause := <-t.pauseCh`, which stores `flag pause`
wake : (Bool → Bool) → Loop → Option Loop
unfolding with_control
wake flag l = elim (receive flag l.control) [
  | none ↦ none
  | some c ↦ some (with_control (record l { place = head }) c)
]

goroutine : Place → Event → Loop → Option Loop
unfolding begin_round fire leave wake
goroutine head (round now) l = some (begin_round now l)
goroutine in_pause see_stop l = leave l
goroutine in_pause see_pause l = wake not l
goroutine out_of_window (timer _ _) l = some (record l { place = head })
goroutine out_of_window see_stop l = leave l
goroutine out_of_window see_pause l = wake (λ b. b) l
goroutine (timed next) (timer actual now) l = some (fire next actual now l)
goroutine (timed next) see_stop l = leave l
goroutine (timed next) see_pause l = wake (λ b. b) l
goroutine _ _ l = none

-- Start spawns a goroutine, beside those that a Stop has not ended yet.
spawn : Loop → Loop
unfolding with_control
spawn l = record (with_control l (start l.control)) { place = head; others = l.place ∷ l.others }

change : ℕ → Loop → Option Loop
change k l = elim (take_at k l.others) [
  | none ↦ none
  | some (p, rest) ↦ some (record l { place = p; others = l.place ∷ rest })
]

call : Event → Loop → Option Loop
unfolding with_control spawn change
call call_start l = if l.control.running then some l else some (spawn l)
call call_stop l = elim (stop l.control) [ panicked ↦ none | done c ↦ some (with_control l c) ]
call call_pause l = some (with_control l (pause l.control))
call call_resume l = some (with_control l (resume l.control))
call consume l = elim l.ch [ [] ↦ none | ctx ∷ rest ↦ some (record l { ch = rest }) ]
call (switch k) l = change k l
call e l = goroutine l.place e l

unfoldable pub step : Event → Loop → Option Loop
unfolding goroutine call
step e l = call e l

-- A sequence of events, `none` if one of them has no next state.
unfoldable pub run_events : List Event → Loop → Option Loop
run_events [] l = some l
run_events (e ∷ es) l = elim (step e l) [ none ↦ none | some m ↦ run_events es m ]

pub data Reach (l : Loop) : Loop → Type 0 where
  here : Reach l l
  next : {m n : Loop} → Reach l m → (e : Event) → step e m ≡ some n → Reach l n
