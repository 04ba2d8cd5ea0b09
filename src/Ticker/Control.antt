-- ===== src/Ticker/Control.antt =====
-- The flags and control channels of a ticker, and Start, Stop, Pause and Resume, which
-- ticker/cron.go, ticker/iso8601.go and ticker/once.go repeat. Each method holds the mutex, so it
-- is one step. A panic of the Go runtime (closing a closed channel) is a value.
use schedule.Base.{
  ℕ, ◌≤◌, List, [], ◌∷◌, ◌++◌, ltb, length, length-append, Bool-cases, inl, inr, All, All-append,
  ◌≡◌, arith, Bool, true, false, Option, none, some, if◌then◌else◌,
}
use schedule.Ticker.Window.{Time}

-- ticker.ExecutionContext; its transaction handle is never set.
pub record ExecutionContext : Type 0 where
  pub scheduled_time : Time
  pub actual_time : Time
  pub last_run_time : Option Time

pub record Control : Type 0 where
  pub running : Bool
  pub paused : Bool
  -- `stopCh` is closed
  pub stop_closed : Bool
  -- what the buffer of `pauseCh`, of capacity 1, holds
  pub pause_ch : Option Bool

pub data Outcome (A : Type 0) : Type 0 where
  done : A → Outcome A
  panicked : Outcome A

unfoldable pub fresh : Control
fresh = record { running = false; paused = false; stop_closed = false; pause_ch = none }

-- The flag that Start sets; the goroutine that it spawns is the ticker's own.
unfoldable pub start : Control → Control
start c = if c.running then c else record c { running = true }

unfoldable pub stop : Control → Outcome Control
stop c =
    if c.running
    then (if c.stop_closed
        then panicked
        else done (record c { stop_closed = true; running = false }))
    else done c

-- The non-blocking send on `pauseCh`: the flag changes only if the buffer was empty.
send : Control → Bool → Option Bool → Control
send c b none = record c { pause_ch = some b; paused = b }
send c b (some _) = c

unfoldable pub pause : Control → Control
unfolding send
pause c = if c.paused then c else send c true c.pause_ch

unfoldable pub resume : Control → Control
unfolding send
resume c = if c.paused then send c false c.pause_ch else c

-- The non-blocking send of a context on a channel with room for `capacity`.
unfoldable pub offer : ℕ → List ExecutionContext → ExecutionContext → List ExecutionContext
offer capacity ch ctx = if ltb (length ch) capacity then ch ++ ctx ∷ [] else ch

-- What the goroutine takes off `pauseCh`, and the flag that it stores.
unfoldable pub receive : (Bool → Bool) → Control → Option Control
receive flag c = elim c.pause_ch [
  | none ↦ none
  | some b ↦ some (record c { pause_ch = none; paused = flag b })
]

-- A ticker that was stopped while it ran and is started again panics when it is stopped again:
-- `stopCh` is closed twice.
pub stop-start-stop :
    (c c' : Control) → c.running ≡ true → stop c ≡ done c' → stop (start c') ≡ panicked
unfolding stop start
stop-start-stop c c' r h = ground arith

-- A send keeps the channel within its capacity, and what holds of all contexts on it.
pub offer-All :
    (capacity : ℕ) (P : ExecutionContext → Type 0) (ch : List ExecutionContext)
    (ctx : ExecutionContext)
    → length ch ≤ capacity
    → All P ch
    → P ctx
    → (length (offer capacity ch ctx) ≤ capacity) × All P (offer capacity ch ctx)
unfolding offer
offer-All capacity P ch ctx f h p = elim (Bool-cases (ltb (length ch) capacity)) [
  | inl room ↦
      rw room (ground (arith, length-append ch (ctx ∷ [])), All-append P ch (ctx ∷ []) h (p, tt))
  | inr full ↦ rw full (f, h)
]
