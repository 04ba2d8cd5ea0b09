-- ===== src/Ticker/Iso8601/Limits.antt =====
-- The limit on the repetitions of a ticker of ticker/iso8601.go, whose goroutines may be several.
use schedule.Base.{
  take_at, sum_of, sum_of-take_at, length-take_at, Option-cases, ◌+◌, ◌-◌, ℕ, zero, suc, ◌≤◌, ◌≡◌,
  false, some, List, [], ◌∷◌, ℤ, pos, negsuc, arith, length, ◌⊎◌, inl, inr,
}
use schedule.Ticker.Control.{start, stop, pause, resume, receive}
use schedule.Ticker.Iso8601.{limit_reached}
use schedule.Ticker.Iso8601.Loop.{Place, off, timed, Loop, Event, switch, step}

abbrev pub lives : Place → ℕ
lives off = 0
lives _ = 1

abbrev pub awaits : Place → ℕ
awaits (timed x) = 1
awaits _ = 0

-- The runs, with those that are waited for, are within the limit, but for one more for each goroutine after
-- the first.
abbrev pub WithinLimit : ℤ → ℕ → ℕ → Type 0
WithinLimit (pos (suc n)) count started = count ≤ suc n + (started - 1)
WithinLimit _ count started = Unit

awaits-lives : (ps : List Place) → sum_of awaits ps ≤ sum_of lives ps
awaits-lives [] = omega arith
awaits-lives (p ∷ ps) = ground (arith, awaits-lives ps)

round_limited :
    (n : ℤ) (count waiting live started : ℕ)
    → limit_reached n count ≡ false
    → waiting ≤ live
    → suc live ≤ started
    → WithinLimit n (count + (1 + waiting)) started
unfolding limit_reached
round_limited (pos zero) count waiting live started h a b = tt
round_limited (pos (suc n)) count waiting live started h a b = ground arith
round_limited (negsuc n) count waiting live started h a b = tt

pub step-started :
    (e : Event) (l m : Loop)
    → step e l ≡ some m
    → sum_of lives (l.place ∷ l.others) ≤ length l.others
    → sum_of lives (m.place ∷ m.others) ≤ length m.others
unfolding step start stop pause resume receive
step-started (switch k) l m h s = elim (Option-cases (take_at k l.others)) [
  | inl d ↦ ground arith
  | inr ((p, rest), d) ↦
      ground (arith, sum_of-take_at lives k l.others rest p d, length-take_at k l.others rest p d)
]
step-started e l m h s = ground arith

limited_less :
    (n : ℤ) (count few started more : ℕ)
    → few ≤ count
    → started ≤ more
    → WithinLimit n count started
    → WithinLimit n few more
limited_less (pos zero) count few started more a b w = tt
limited_less (pos (suc n)) count few started more a b w = omega arith
limited_less (negsuc n) count few started more a b w = tt

-- A round takes a goroutine to its timer below the limit; any other step has no more runs and timers.
abbrev pub Moved : Loop → Loop → Type 0
Moved l m =
    (m.repetitions ≡ l.repetitions)
    × (((limit_reached l.repetitions l.run_count ≡ false)
          × (m.run_count ≡ l.run_count)
          × (lives l.place ≡ 1)
          × (awaits m.place ≤ 1)
          × (m.others ≡ l.others))
        ⊎ ((m.run_count + sum_of awaits (m.place ∷ m.others)
              ≤ l.run_count + sum_of awaits (l.place ∷ l.others))
            × (length l.others ≤ length m.others)))

pub step-Moved : (e : Event) (l m : Loop) → step e l ≡ some m → Moved l m
unfolding step start stop pause resume receive
step-Moved (switch k) l m h = elim (Option-cases (take_at k l.others)) [
  | inl d ↦ ground arith
  | inr ((p, rest), d) ↦
      ground (arith, sum_of-take_at awaits k l.others rest p d, length-take_at k l.others rest p d)
]
step-Moved e l m h = ground arith

pub step-limited :
    (l m : Loop)
    → Moved l m
    → sum_of lives (l.place ∷ l.others) ≤ length l.others
    → WithinLimit l.repetitions (l.run_count + sum_of awaits (l.place ∷ l.others)) (length l.others)
    → WithinLimit m.repetitions (m.run_count + sum_of awaits (m.place ∷ m.others)) (length m.others)
step-limited l m (r, inl (f, c, p, a, o)) s w =
    rw (r, c, o)
      (limited_less l.repetitions _ _ _ _ (omega arith) (omega arith) (
        round_limited l.repetitions l.run_count (sum_of awaits l.others) (sum_of lives l.others)
          (length l.others) f (awaits-lives l.others) (omega arith)))
step-limited l m (r, inr (few, more)) s w = rw r (limited_less l.repetitions _ _ _ _ few more w)
