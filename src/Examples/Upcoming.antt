-- ===== src/Examples/Upcoming.antt =====
-- NextRun at a concrete input.
use schedule.Base.{◌≡◌, refl, some, [], ◌∷◌, ok, arith}
use schedule.Ticker.Window.{within_window}
use schedule.Ticker.Iso8601.{Iso8601Ticker, limit_reached}
use schedule.Ticker.Iso8601
use schedule.Ticker.Any.{iso8601, next_run, get_occurrences_between}
use schedule.Ticker.Any.Upcoming.{IsEarliest, next_run-IsEarliest}
use schedule.Examples.Tickers.{every_ten}

-- After its first run, at a time before the second.
abbrev ran_once : Iso8601Ticker
ran_once = record every_ten { run_count = 1 }

ran_once_next : next_run (iso8601 ran_once) 10 ≡ some 15
unfolding next_run Iso8601.next_run Iso8601.calculate_next_run Iso8601.add_wrapped limit_reached
    within_window
ran_once_next = refl

ran_once_occurrences : get_occurrences_between (iso8601 ran_once) 10 100 ≡ ok (15 ∷ 25 ∷ [])
unfolding get_occurrences_between Iso8601.get_occurrences_between limit_reached within_window
ran_once_occurrences = refl

next_run-IsEarliest_example : IsEarliest 15 (15 ∷ 25 ∷ [])
next_run-IsEarliest_example =
    next_run-IsEarliest (λ t. Unit) 60 (iso8601 ran_once) 10 100 15 (15 ∷ 25 ∷ [])
      (omega arith, omega arith) ran_once_next ran_once_occurrences (omega arith) (omega arith)
