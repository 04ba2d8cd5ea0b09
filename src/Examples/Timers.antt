-- ===== src/Examples/Timers.antt =====
-- The cron and the once ticker of ticker/ at concrete inputs.
use schedule.Base.{
  ◌⊎◌, ℕ, ◌+◌, ◌*◌, ◌/◌, ◌%◌, ◌≤◌, ◌<◌, ◌≡◌, refl, ◌↔◌, true, false, none, List, [], ◌∷◌, ok, arith,
  Elem,
}
use schedule.Ticker.Window.{Time, within_window}
use schedule.Ticker.Control.{start, stop}
use schedule.Ticker.Cron
use schedule.Ticker.Cron.{Schedule, Documented, CronTicker}
use schedule.Ticker.Cron.Occurrences as CronOccurrences
use schedule.Ticker.Cron.Occurrences.{cron_occurrences_exact, cron_occurrences_ok}
use schedule.Ticker.Cron.Loop as CronLoop
use schedule.Ticker.Once.{OnceTicker, once_occurrences_exact}
use schedule.Ticker.Once
use schedule.Ticker.Once.Loop as OnceLoop
use schedule.Ticker.Once.Runs.{runs, starts, runs-le-goroutines}
use schedule.Examples.Tickers.{open_config, idle}

-- Every 60, as a cron schedule of minutes.
abbrev minutely : Schedule
minutely = record { next = λ t. (t / 60 + 1) * 60 }

abbrev OnMinute : Time → Type 0
OnMinute t = t % 60 ≡ 0

minutely-Documented : Documented minutely OnMinute 60
minutely-Documented = record {
  later = λ t. omega arith;
  active = λ t. omega arith;
  least = λ t u h a. omega arith;
  spaced = λ t a. omega arith;
}

abbrev cron_ticker : CronTicker
cron_ticker = record {
  expression = [];
  config = record open_config { end_time = none };
  schedule = minutely;
  location = 0;
  control = idle;
}

cron_occurrences : Cron.get_occurrences_between cron_ticker 60 190 ≡ ok (120 ∷ 180 ∷ [])
unfolding Cron.get_occurrences_between within_window
cron_occurrences = refl

cron_occurrences_exact_example :
    Elem {A = ℕ} 120 (120 ∷ 180 ∷ []) ↔ CronOccurrences.IsOccurrence cron_ticker OnMinute 60 190 120
cron_occurrences_exact_example =
    cron_occurrences_exact cron_ticker OnMinute 60 minutely-Documented 60 190 (120 ∷ 180 ∷ []) 120
      cron_occurrences

cron_occurrences_ok_example :
    (ts : List Time) × (Cron.get_occurrences_between cron_ticker 60 190 ≡ ok ts)
cron_occurrences_ok_example =
    cron_occurrences_ok cron_ticker OnMinute 60 minutely-Documented 60 190 (omega arith)

abbrev cron_waiting : CronLoop.Loop
cron_waiting = record {
  ticker = record cron_ticker { control = record idle { running = true } };
  place = CronLoop.timed 120;
  others = CronLoop.off ∷ [];
  ch = [];
}

-- The timer comes after the Pause and before the goroutine sees it.
abbrev late_events : List CronLoop.Event
late_events = CronLoop.timer 121 ∷ CronLoop.round 122 ∷ CronLoop.see_pause ∷ CronLoop.round 190 ∷ []

abbrev cron_held : CronLoop.Loop
cron_held = record cron_waiting {
  ticker = record cron_ticker { control = record idle { running = true; paused = true } };
  place = CronLoop.in_pause;
  ch = record { scheduled_time = 120; actual_time = 121; last_run_time = none } ∷ [];
}

abbrev once_at_ten : OnceTicker
once_at_ten = record {
  scheduled_time = 10;
  config = open_config;
  control = idle;
  executed = false;
  location = 0;
}

once_occurrences_exact_example :
    let found =
      (ts : List Time) × (Once.get_occurrences_between once_at_ten 0 20 ≡ ok ts) × Elem 10 ts in
    found ↔ ((◌≡◌ {A = ℕ} 10 10) × (0 < 10) × (10 < 20) × (within_window open_config 10 ≡ true))
once_occurrences_exact_example = once_occurrences_exact once_at_ten 0 20 10

abbrev once_start : OnceLoop.Loop
once_start = record { ticker = once_at_ten; place = OnceLoop.off; others = []; ch = [] }

-- Started, stopped and started before the first goroutine sees that: both of them run the job.
abbrev once_twice : OnceLoop.Loop
once_twice = record {
  ticker = record once_at_ten {
    executed = true;
    control = record idle { running = false; stop_closed = true };
  };
  place = OnceLoop.off;
  others = OnceLoop.off ∷ OnceLoop.off ∷ [];
  ch = record { scheduled_time = 10; actual_time = 11; last_run_time = none } ∷ [];
}

once_stopped : OnceLoop.Loop
once_stopped = record {
  ticker = record once_at_ten { control = record idle { stop_closed = true } };
  place = OnceLoop.timed;
  others = OnceLoop.off ∷ [];
  ch = [];
}

once_reached : OnceLoop.Reach once_start once_stopped
unfolding OnceLoop.step start stop within_window once_stopped
once_reached =
    OnceLoop.next
      (OnceLoop.next (OnceLoop.next OnceLoop.here OnceLoop.call_start refl) OnceLoop.round refl)
      OnceLoop.call_stop refl

twice_reached : OnceLoop.Reach once_start once_twice
unfolding OnceLoop.step start within_window once_reached once_stopped
twice_reached =
    OnceLoop.next
      (OnceLoop.next
        (OnceLoop.next
          (OnceLoop.next (OnceLoop.next once_reached OnceLoop.call_start refl) OnceLoop.round refl)
          (OnceLoop.timer 11) refl)
        (OnceLoop.switch 0) refl)
      (OnceLoop.timer 12) refl

two_runs : runs twice_reached ≡ 2
unfolding twice_reached once_reached
two_runs = refl

runs-le-goroutines_example :
    (runs twice_reached + 0 ≤ 0 + starts twice_reached)
    × ((runs twice_reached ≡ 0) ⊎ (true ≡ true))
    × (false ≡ true → (true ≡ true) × (runs twice_reached + 0 ≤ 0))
runs-le-goroutines_example = runs-le-goroutines {l = once_start} twice_reached
