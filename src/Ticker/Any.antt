-- ===== src/Ticker/Any.antt =====
-- The interface Ticker of ticker/ticker.go at its three implementations.
pub mod Upcoming
use schedule.Base.{Bool, not, ◌&&◌, Option, none, some, List, Result, if◌then◌else◌}
use schedule.Ticker.Window.{Time, Location, TickerConfig, within_window}
use schedule.Ticker.Control.{Control, done, panicked, start, stop, pause, resume}
use schedule.Ticker.Iso8601.{Iso8601Ticker}
use schedule.Ticker.Iso8601
use schedule.Ticker.Cron.{CronTicker}
use schedule.Ticker.Cron
use schedule.Ticker.Once.{OnceTicker}
use schedule.Ticker.Once

pub data Ticker : Type 0 where
  iso8601 : Iso8601Ticker → Ticker
  cron : CronTicker → Ticker
  once : OnceTicker → Ticker

unfoldable pub get_occurrences_between : Ticker → Time → Time → Result (List Time)
get_occurrences_between (iso8601 t) start end = Iso8601.get_occurrences_between t start end
get_occurrences_between (cron t) start end = Cron.get_occurrences_between t start end
get_occurrences_between (once t) start end = Once.get_occurrences_between t start end

-- The location of the times that the ticker reports.
abbrev pub location : Ticker → Location
location (iso8601 t) = t.location
location (cron t) = t.location
location (once t) = t.location

-- NextRun at a time.
unfoldable pub next_run : Ticker → Time → Option Time
next_run (iso8601 t) now = Iso8601.next_run t
next_run (cron t) now = Cron.next_run t now
next_run (once t) now = Once.next_run t

abbrev pub control : Ticker → Control
control (iso8601 t) = t.control
control (cron t) = t.control
control (once t) = t.control

abbrev pub config : Ticker → TickerConfig
config (iso8601 t) = t.config
config (cron t) = t.config
config (once t) = t.config

abbrev pub with_control : Ticker → Control → Ticker
with_control (iso8601 t) c = iso8601 (record t { control = c })
with_control (cron t) c = cron (record t { control = c })
with_control (once t) c = once (record t { control = c })

-- A ticker that runs once and has run is not started again; its error is not looked at.
unfoldable pub start_ticker : Ticker → Ticker
start_ticker (iso8601 t) = with_control (iso8601 t) (start t.control)
start_ticker (cron t) = with_control (cron t) (start t.control)
start_ticker (once t) = if t.executed then once t else with_control (once t) (start t.control)

unfoldable pub stop_ticker : Ticker → Option Ticker
stop_ticker t = elim (stop (control t)) [ panicked ↦ none | done c ↦ some (with_control t c) ]

unfoldable pub pause_ticker : Ticker → Ticker
pause_ticker t = with_control t (pause (control t))

unfoldable pub resume_ticker : Ticker → Ticker
resume_ticker t = with_control t (resume (control t))

unfoldable pub is_active : Ticker → Time → Bool
is_active t now = within_window (config t) now

unfoldable pub is_enabled : Ticker → Time → Bool
unfolding is_active
is_enabled t now = is_active t now && not (control t).paused
