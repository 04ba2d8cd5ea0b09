-- ===== src/Ticker/Cron.antt =====
-- ticker/cron.go: a ticker over a schedule of the package robfig/cron, whose interface has the one
-- method Next.
pub mod Occurrences
pub mod Loop
pub mod Paused
use schedule.Base.{
  ℕ, zero, suc, ◌+◌, ◌≤◌, ◌<◌, ◌≡◌, Option, none, some, List, [], ◌∷◌, Text, Result, ok, err,
  invalid_timezone, invalid_expression, too_many_occurrences, map_ok, ltb, if◌then◌else◌,
}
use schedule.Ticker.Window.{
  Time, Location, TickerConfig, load_timezone, max_occurrence_iterations, within_window,
}
use schedule.Ticker.Control.{Control, fresh}

-- `cron.Schedule`
pub record Schedule : Type 0 where
  pub next : Time → Time

-- What robfig/cron documents of Next: the least activation after the given time. The activations of
-- an expression with fields from minutes up are at least a minute apart.
pub record Documented (s : Schedule) (Active : Time → Type 0) (minute : ℕ) : Type 0 where
  pub later : (t : Time) → t < s.next t
  pub active : (t : Time) → Active (s.next t)
  pub least : (t u : Time) → t < u → Active u → s.next t ≤ u
  pub spaced : (t : Time) → Active t → t + minute ≤ s.next t

pub record CronTicker : Type 0 where
  pub expression : Text
  pub config : TickerConfig
  pub schedule : Schedule
  pub location : Location
  pub control : Control

-- `load` is `time.LoadLocation`, `parse` the parser of robfig/cron for the five standard fields.
unfoldable pub new_cron_ticker :
    (Text → Option Location) → (Text → Option Schedule) → Text → TickerConfig → Result CronTicker
unfolding load_timezone fresh
new_cron_ticker load parse expression config = elim (load_timezone load config.timezone) [
  | none ↦ err invalid_timezone
  | some loc ↦ elim (parse expression) [
    | none ↦ err invalid_expression
    | some s ↦ ok (record {
      expression = expression;
      config = config;
      schedule = s;
      location = loc;
      control = fresh;
    })
  ]
]

-- One round of the loop of `GetOccurrencesBetween` below the limit on rounds, given the result of
-- the later rounds.
round : CronTicker → Time → Time → Result (List Time) → Result (List Time)
round t end current rest =
    let next = t.schedule.next current in
    if ltb current end
    then (if ltb end next
        then ok []
        else (if within_window t.config next then map_ok (λ ts. next ∷ ts) rest else rest))
    else ok []

-- The loop; `left` is the limit less `iterations`. The limit is tested before the rest of a round.
collect : ℕ → CronTicker → Time → Time → Result (List Time)
unfolding round
collect zero t end current = if ltb current end then err too_many_occurrences else ok []
collect (suc left) t end current =
    let rest = collect left t end (t.schedule.next current) in round t end current rest

unfoldable pub get_occurrences_between : CronTicker → Time → Time → Result (List Time)
unfolding collect
get_occurrences_between t start end = collect max_occurrence_iterations t end start

unfoldable pub next_run : CronTicker → Time → Option Time
next_run t now =
    let next = t.schedule.next now in if within_window t.config next then some next else none
