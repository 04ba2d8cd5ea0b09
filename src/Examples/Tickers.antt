-- ===== src/Examples/Tickers.antt =====
-- The ISO8601 ticker of ticker/ at concrete inputs.
use schedule.Base.{
  Option, ◌≤◌, ℕ, ◌+◌, ◌*◌, ◌<◌, ◌≡◌, refl, ◌↔◌, true, false, none, some, List, [], ◌∷◌, pos, ok,
  err, too_many_occurrences, arith, Elem,
}
use schedule.Ticker.Window.{Time, TickerConfig, max_occurrence_iterations, within_window}
use schedule.Ticker.Control.{Control, start, stop}
use schedule.Ticker.Iso8601
use schedule.Ticker.Iso8601.{Iso8601Ticker, limit_reached}
use schedule.Ticker.Iso8601.Occurrences.{iso8601_occurrences_exact, iso8601_occurrences_error}
use schedule.Ticker.Iso8601.Occurrences
use schedule.Ticker.Iso8601.Loop
use schedule.Ticker.Iso8601.Runs.{Inv, starts, iso8601_runs}
use schedule.Ticker.Iso8601.Pausing.{IsStuck, resume_repauses, IsStuck-never_runs}

abbrev pub open_config : TickerConfig
open_config = record { start_time = none; end_time = some 35; timezone = [] }

abbrev pub idle : Control
idle = record { running = false; paused = false; stop_closed = false; pause_ch = none }

-- Every 10 from 5, three times.
abbrev pub every_ten : Iso8601Ticker
every_ten = record {
  interval = 10;
  start_time = 5;
  repetitions = pos 3;
  config = open_config;
  location = 0;
  control = idle;
  run_count = 0;
  last_run_time = none;
}

every_ten_occurrences : Iso8601.get_occurrences_between every_ten 10 100 ≡ ok (15 ∷ 25 ∷ [])
unfolding Iso8601.get_occurrences_between limit_reached within_window
every_ten_occurrences = refl

iso8601_occurrences_exact_example :
    Elem {A = ℕ} 15 (15 ∷ 25 ∷ [])
    ↔ ((k : ℕ) × (◌≡◌ {A = ℕ} 15 (5 + k * 10)) × Occurrences.IsOccurrence every_ten 10 100 15 k)
iso8601_occurrences_exact_example =
    iso8601_occurrences_exact every_ten 10 100 (15 ∷ 25 ∷ []) 15 every_ten_occurrences

-- Every unit of time, without a limit.
abbrev every_one : Iso8601Ticker
every_one = record every_ten { interval = 1; start_time = 0; repetitions = pos 0 }

iso8601_occurrences_error_example :
    let fails =
      (0 + max_occurrence_iterations * 1 < 10001)
      × (limit_reached (pos 0) max_occurrence_iterations ≡ false) in
    (fails → Iso8601.get_occurrences_between every_one 0 10001 ≡ err too_many_occurrences)
    × (¬ fails → (ts : List Time) × (Iso8601.get_occurrences_between every_one 0 10001 ≡ ok ts))
iso8601_occurrences_error_example = iso8601_occurrences_error every_one 0 10001

-- The next run is known, and the goroutine has not started.
abbrev iso_start : Loop.Loop
iso_start = record { ticker = every_ten; place = Loop.off; others = []; ch = [] }

abbrev iso_fired : Loop.Loop
iso_fired = record {
  ticker = record every_ten {
    control = record idle { running = true };
    run_count = 1;
    last_run_time = some 6;
  };
  place = Loop.head;
  others = Loop.off ∷ [];
  ch = record { scheduled_time = 5; actual_time = 5; last_run_time = none } ∷ [];
}

fired_reached : Loop.Reach iso_start iso_fired
unfolding Loop.step start Iso8601.calculate_next_run Iso8601.add_wrapped within_window limit_reached
fired_reached =
    Loop.next (Loop.next (Loop.next Loop.here Loop.call_start refl) (Loop.round 0) refl)
      (Loop.timer 5 6) refl

fresh-Inv : Inv iso_start
fresh-Inv = record {
  at_run = (tt, tt);
  started = omega arith;
  limited = omega arith;
  buffered = omega arith;
  past = tt;
}

iso8601_runs_example : Inv iso_fired × (1 ≤ 0 + starts fired_reached)
iso8601_runs_example = iso8601_runs {l = iso_start} fresh-Inv fired_reached

-- One repetition, and Start, Stop and Start before the first goroutine sees that: both goroutines run the
-- job.
abbrev once_only : Loop.Loop
once_only = record iso_start { ticker = record every_ten { repetitions = pos 1 } }

runs_at_end : Option Loop.Loop → ℕ
runs_at_end none = 0
runs_at_end (some l) = l.run_count

over_the_limit :
    runs_at_end (
      Loop.run_events
        (Loop.call_start
          ∷ Loop.round 0
          ∷ Loop.call_stop
          ∷ Loop.call_start
          ∷ Loop.round 0
          ∷ Loop.timer 5 6
          ∷ Loop.switch 0
          ∷ Loop.timer 7 8
          ∷ [])
        once_only)
    ≡ 2
unfolding runs_at_end Loop.run_events Loop.step start stop Iso8601.calculate_next_run
    Iso8601.add_wrapped within_window limit_reached
over_the_limit = refl

abbrev iso_paused : Loop.Loop
iso_paused = record {
  ticker = record every_ten { control = record idle { running = true; paused = true } };
  place = Loop.in_pause;
  others = [];
  ch = [];
}

resume_repauses_example :
    Loop.run_events (Loop.call_resume ∷ Loop.see_pause ∷ Loop.round 7 ∷ []) iso_paused
    ≡ some iso_paused
resume_repauses_example = resume_repauses iso_paused 7 refl refl refl (unfold limit_reached in refl)

-- The first run, at 5, is before the window that starts at 6.
abbrev early : Loop.Loop
early = record iso_start {
  ticker = record every_ten { config = record open_config { start_time = some 6 } };
}

abbrev early_started : Loop.Loop
early_started = record {
  ticker = record every_ten {
    config = record open_config { start_time = some 6 };
    control = record idle { running = true };
  };
  place = Loop.out_of_window;
  others = Loop.off ∷ [];
  ch = [];
}

early-IsStuck : IsStuck early
unfolding Iso8601.calculate_next_run Iso8601.add_wrapped within_window
early-IsStuck = record { out = refl; not_timed = refl }

early_reached : Loop.Reach early early_started
unfolding Loop.step start Iso8601.calculate_next_run Iso8601.add_wrapped within_window limit_reached
early_reached = Loop.next (Loop.next Loop.here Loop.call_start refl) (Loop.round 7) refl

IsStuck-never_runs_example : IsStuck early_started × (◌≡◌ {A = ℕ} 0 0)
IsStuck-never_runs_example = IsStuck-never_runs {l = early} early-IsStuck early_reached
