-- ===== src/Ticker/Window.antt =====
-- TickerConfig of ticker/ticker.go and `isWithinWindow`, which the three tickers repeat.
use schedule.Base.{
  ℕ, ◌≤◌, ◌≡◌, Bool, true, false, ◌&&◌, Option, none, some, [], ◌∷◌, codes, Text, arith, ltb, not,
}

abbrev pub Time : Type 0
Time = ℕ

abbrev pub Location : Type 0
Location = ℕ

abbrev pub utc : Location
utc = 0

pub record TickerConfig : Type 0 where
  pub start_time : Option Time
  pub end_time : Option Time
  pub timezone : Text

-- An empty timezone is UTC; `load` is `time.LoadLocation`.
unfoldable pub load_timezone : (Text → Option Location) → Text → Option Location
load_timezone load [] = load (codes "UTC")
load_timezone load (c ∷ name) = load (c ∷ name)

abbrev pub max_occurrence_iterations : ℕ
max_occurrence_iterations = 10000

-- `t.Before(*limit)`, false with no limit
before_start : Time → Option Time → Bool
before_start t none = false
before_start t (some limit) = ltb t limit

pub after_end : Time → Option Time → Bool
after_end t none = false
after_end t (some limit) = ltb limit t

unfoldable pub within_window : TickerConfig → Time → Bool
unfolding before_start after_end
within_window config t = not (before_start t config.start_time) && not (after_end t config.end_time)

-- The window as a proposition: bounds that are set are inclusive.
abbrev pub AtLeast : Option Time → Time → Type 0
AtLeast none t = Unit
AtLeast (some limit) t = limit ≤ t

abbrev pub AtMost : Option Time → Time → Type 0
AtMost none t = Unit
AtMost (some limit) t = t ≤ limit

pub within_window-true :
    (config : TickerConfig) (t : Time)
    → within_window config t ≡ true
    → AtLeast config.start_time t × AtMost config.end_time t
unfolding within_window
within_window-true config t h = bounds config.start_time config.end_time h
  where
    bounds :
        (s e : Option Time)
        → not (before_start t s) && not (after_end t e) ≡ true
        → AtLeast s t × AtMost e t
    bounds none none h = (tt, tt)
    bounds none (some e) h = ground arith
    bounds (some s) none h = ground arith
    bounds (some s) (some e) h = ground arith
