-- ===== src/Ticker/Once/Loop.antt =====
-- The goroutines `run` of ticker/once.go beside the calls of Start, Stop, Pause and Resume. An event
-- is one atomic step of either; a process that panics, or an event that cannot happen, has no next
-- state. A Start that returns its error changes nothing.
-- A Start after a Stop that no goroutine has seen adds one; a round up to its `select` is one step.
use schedule.Base.{ℕ, ◌≡◌, Bool, true, false, not, Option, none, some, List, [], ◌∷◌, if◌then◌else◌}
use schedule.Ticker.Window.{Time, after_end, within_window}
use schedule.Ticker.Control.{
  Control, ExecutionContext, offer, done, panicked, start, stop, pause, resume, receive,
}
use schedule.Ticker.Once.{OnceTicker}
use schedule.Base.{take_at}

-- Where a goroutine stands: not running, at the head of the loop, or in one of its `select`s.
pub data Place : Type 0 where
  off head in_pause out_of_window timed : Place

-- The goroutine at `place` makes the next step, until another of `others` is chosen.
pub record Loop : Type 0 where
  pub ticker : OnceTicker
  pub open ticker use *
  pub place : Place
  pub others : List Place
  pub ch : List ExecutionContext

pub data Event : Type 0 where
  call_start call_stop call_pause call_resume consume : Event
  round see_stop see_pause : Event
  timer : Time → Event
  -- another goroutine goes on
  switch : ℕ → Event

with_control : Loop → Control → Loop
with_control l c = record l { ticker = record l.ticker { control = c } }

-- The deferred function of `run`.
quit : Loop → Loop
unfolding with_control
quit l = with_control (record l { place = off }) (record l.control { running = false })

-- The head of the loop, up to the `select` that it reaches.
begin_round : Loop → Loop
unfolding quit
begin_round l =
    if l.executed
    then quit l
    else (if l.control.paused
        then record l { place = in_pause }
        else (if within_window l.config l.scheduled_time
            then record l { place = timed }
            else (if after_end l.scheduled_time l.config.end_time
                then quit l
                else record l { place = out_of_window })))

-- The timer: the ticker is executed, the context is sent, and the goroutine ends.
fire : Time → Loop → Loop
unfolding offer quit
fire actual l =
    let ctx : ExecutionContext = record {
      scheduled_time = l.scheduled_time;
      actual_time = actual;
      last_run_time = none;
    } in
    quit (record l { ticker = record l.ticker { executed = true }; ch = offer 1 l.ch ctx })

leave : Loop → Option Loop
unfolding quit
leave l = if l.control.stop_closed then some (quit l) else none

wake : (Bool → Bool) → Loop → Option Loop
unfolding with_control
wake flag l = elim (receive flag l.control) [
  | none ↦ none
  | some c ↦ some (with_control (record l { place = head }) c)
]

goroutine : Place → Event → Loop → Option Loop
unfolding begin_round fire leave wake
goroutine head round l = some (begin_round l)
goroutine in_pause see_stop l = leave l
goroutine in_pause see_pause l = wake not l
goroutine out_of_window (timer _) l = some (record l { place = head })
goroutine out_of_window see_stop l = leave l
goroutine out_of_window see_pause l = wake (λ b. b) l
goroutine timed (timer actual) l = some (fire actual l)
goroutine timed see_stop l = leave l
goroutine timed see_pause l = wake (λ b. b) l
goroutine _ _ l = none

-- Start spawns a goroutine, beside those that a Stop has not ended yet.
spawn : Loop → Loop
unfolding with_control
spawn l = record (with_control l (start l.control)) { place = head; others = l.place ∷ l.others }

change : ℕ → Loop → Option Loop
change k l = elim (take_at k l.others) [
  | none ↦ none
  | some (p, rest) ↦ some (record l { place = p; others = l.place ∷ rest })
]

call : Event → Loop → Option Loop
unfolding with_control spawn change
call call_start l =
    if l.control.running then some l else (if l.executed then some l else some (spawn l))
call call_stop l = elim (stop l.control) [ panicked ↦ none | done c ↦ some (with_control l c) ]
call call_pause l = some (with_control l (pause l.control))
call call_resume l = some (with_control l (resume l.control))
call consume l = elim l.ch [ [] ↦ none | ctx ∷ rest ↦ some (record l { ch = rest }) ]
call (switch k) l = change k l
call e l = goroutine l.place e l

unfoldable pub step : Event → Loop → Option Loop
unfolding goroutine call
step e l = call e l

pub data Reach (l : Loop) : Loop → Type 0 where
  here : Reach l l
  next : {m n : Loop} → Reach l m → (e : Event) → step e m ≡ some n → Reach l n
