-- ===== src/Ticker/Iso8601.antt =====
-- ticker/iso8601.go: a ticker with a fixed interval from a start time.
pub mod Occurrences
pub mod Loop
pub mod Limits
pub mod Runs
pub mod Pausing
use schedule.Base.{
  ℕ, zero, suc, ◌+◌, ◌-◌, ◌*◌, ◌%◌, ◌^◌, Bool, true, false, not, ◌&&◌, ◌||◌, Option, none, some,
  List, [], ◌∷◌, Text, ℤ, pos, negsuc, Result, ok, err, Error, invalid_timezone, bad_interval,
  too_many_occurrences, map_ok, ltb, leb, if◌then◌else◌,
}
use schedule.Ticker.Window.{
  Time, Location, TickerConfig, load_timezone, max_occurrence_iterations, within_window,
}
use schedule.Ticker.Control.{Control, fresh}

-- The interval is positive, as the constructor checks, so it is a natural number.
pub record Iso8601Ticker : Type 0 where
  pub interval : ℕ
  pub start_time : Time
  pub repetitions : ℤ
  pub config : TickerConfig
  pub location : Location
  pub control : Control
  pub run_count : ℕ
  pub last_run_time : Option Time

positive : ℤ → Option ℕ
positive (pos zero) = none
positive (pos (suc n)) = some (suc n)
positive (negsuc n) = none

-- `load` is `time.LoadLocation`.
unfoldable pub new_iso8601_ticker :
    (Text → Option Location) → ℤ → Time → ℤ → TickerConfig → Result Iso8601Ticker
unfolding load_timezone positive fresh
new_iso8601_ticker load interval start_time repetitions config =
    elim (load_timezone load config.timezone) [
      | none ↦ err invalid_timezone
      | some loc ↦ elim (positive interval) [
        | none ↦ err bad_interval
        | some i ↦ ok (record {
          interval = i;
          start_time = start_time;
          repetitions = repetitions;
          config = config;
          location = loc;
          control = fresh;
          run_count = 0;
          last_run_time = none;
        })
      ]
    ]

-- `t.repetitions > 0 && count >= t.repetitions`
unfoldable pub limit_reached : ℤ → ℕ → Bool
limit_reached (pos zero) count = false
limit_reached (pos (suc n)) count = leb (suc n) count
limit_reached (negsuc n) count = false

-- One round of the loop of `GetOccurrencesBetween`, given the result of the later rounds. It stops
-- by the loop's test or by `break`, and fails on more rounds than the limit.
round : Iso8601Ticker → Time → Time → Time → ℕ → Result (List Time) → Result (List Time)
round t start end current count rest =
    if ltb current end && not (limit_reached t.repetitions count)
    then (if ltb max_occurrence_iterations (suc count)
        then err too_many_occurrences
        else (if leb start current && within_window t.config current
            then map_ok (λ ts. current ∷ ts) rest
            else rest))
    else ok []

-- The loop, with fuel for its rounds. `current.After(start) || current.Equal(start)` is `leb`.
collect : ℕ → Iso8601Ticker → Time → Time → Time → ℕ → Result (List Time)
unfolding round
collect zero t start end current count = err too_many_occurrences
collect (suc fuel) t start end current count =
    let rest = collect fuel t start end (current + t.interval) (suc count) in
    round t start end current count rest

-- One round more than the source's limit: the loop ends by its own test before the fuel does.
unfoldable pub get_occurrences_between : Iso8601Ticker → Time → Time → Result (List Time)
unfolding collect
get_occurrences_between t start end =
    collect (suc max_occurrence_iterations) t start end t.start_time 0

-- `time.Duration(runCount) * t.interval` wraps to 64 bits, and the sum takes it with its sign; a sum before
-- the zero time of Go, which no time of the model is, is that time.
unfoldable pub add_wrapped : Time → ℕ → Time
add_wrapped t product =
    let d = product % 2 ^ 64 in if ltb d (2 ^ 63) then t + d else t - (2 ^ 64 - d)

unfoldable pub calculate_next_run : Iso8601Ticker → Time
calculate_next_run t = add_wrapped t.start_time (t.run_count * t.interval)

-- It does not look at the time that it is called at.
unfoldable pub next_run : Iso8601Ticker → Option Time
unfolding calculate_next_run
next_run t =
    let next = calculate_next_run t in
    if limit_reached t.repetitions t.run_count
    then none
    else (if within_window t.config next then some next else none)
