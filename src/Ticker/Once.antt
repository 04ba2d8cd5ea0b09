-- ===== src/Ticker/Once.antt =====
-- ticker/once.go: a ticker that runs once.
pub mod Loop
pub mod Runs
use schedule.Base.{
  ℕ, ◌≤◌, ◌<◌, ◌≡◌, refl, ◌↔◌, ◌⊎◌, inl, inr, Bool, true, false, ◌&&◌, Option, none, some, List, [],
  ◌∷◌, Text, Result, ok, err, invalid_timezone, arith, ltb, Elem, if◌then◌else◌,
}
use schedule.Ticker.Window.{Time, Location, TickerConfig, load_timezone, within_window}
use schedule.Ticker.Control.{Control, fresh}

pub record OnceTicker : Type 0 where
  pub scheduled_time : Time
  pub config : TickerConfig
  pub control : Control
  pub executed : Bool
  pub location : Location

unfoldable pub new_once_ticker : (Text → Option Location) → Time → TickerConfig → Result OnceTicker
unfolding load_timezone fresh
new_once_ticker load scheduled_time config = elim (load_timezone load config.timezone) [
  | none ↦ err invalid_timezone
  | some loc ↦ ok (record {
    scheduled_time = scheduled_time;
    config = config;
    control = fresh;
    executed = false;
    location = loc;
  })
]

unfoldable pub next_run : OnceTicker → Option Time
next_run t =
    if t.executed
    then none
    else (if within_window t.config t.scheduled_time then some t.scheduled_time else none)

unfoldable pub get_occurrences_between : OnceTicker → Time → Time → Result (List Time)
get_occurrences_between t start end =
    if ltb start t.scheduled_time
      && ltb t.scheduled_time end
      && within_window t.config t.scheduled_time
    then ok (t.scheduled_time ∷ [])
    else ok []

-- A list is always returned. It holds the scheduled time if that is strictly between the bounds and
-- in the window, and nothing else, whether or not the ticker has been executed.
pub once_occurrences_exact :
    (t : OnceTicker) (start end x : Time)
    → let found = (ts : List Time) × (get_occurrences_between t start end ≡ ok ts) × Elem x ts in
      found ↔ (
        (x ≡ t.scheduled_time)
        × (start < x)
        × (x < end)
        × (within_window t.config t.scheduled_time ≡ true))
unfolding get_occurrences_between
once_occurrences_exact t start end x =
    (λ (ts, h, m). single ts h m, λ (e, a, b, w). (t.scheduled_time ∷ [], ground arith, inl e))
  where
    single :
        (ts : List Time)
        → get_occurrences_between t start end ≡ ok ts
        → Elem x ts
        → (x ≡ t.scheduled_time)
          × (start < x)
          × (x < end)
          × (within_window t.config t.scheduled_time ≡ true)
    single [] h m = absurd m
    single (y ∷ []) h (inl m) = ground arith
    single (y ∷ []) h (inr m) = absurd m
    single (y ∷ z ∷ ts) h m = ground arith
