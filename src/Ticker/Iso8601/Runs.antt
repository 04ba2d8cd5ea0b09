-- ===== src/Ticker/Iso8601/Runs.antt =====
-- What holds of a ticker of ticker/iso8601.go after any interleaving of its goroutines and its calls.
use schedule.Base.{
  subst, refl, take_at, sum_of, length-take_at, All-take_at, Option-cases, ◌+◌, ℕ, suc, ◌*◌, ◌≤◌,
  ◌<◌, ◌≡◌, some, List, [], ◌∷◌, arith, length, ◌⊎◌, inl, inr, ⊎-elim, All,
}
use schedule.Ticker.Window.{Time}
use schedule.Ticker.Control.{
  ExecutionContext, offer, offer-All, start, stop, pause, resume, receive,
}
use schedule.Ticker.Iso8601.{Iso8601Ticker}
use schedule.Ticker.Iso8601.Loop.{
  Place, off, head, in_pause, out_of_window, timed, Loop, Event, call_start, timer, switch, step,
  Reach, here, next,
}
use schedule.Ticker.Iso8601.Limits.{
  lives, awaits, WithinLimit, step-started, step-Moved, step-limited,
}
use schedule.Ticker.Iso8601.{add_wrapped, calculate_next_run}

-- A goroutine that waits for its timer waits for a time of the schedule: that of the next run when its
-- round began.
abbrev AtRun : Iso8601Ticker → Place → Type 0
AtRun t (timed x) = (k : ℕ) × (k ≤ t.run_count) × (x ≡ add_wrapped t.start_time (k * t.interval))
AtRun t _ = Unit

-- The context of the k-th run of the schedule, for a run that has been counted.
abbrev IsPastRun : Iso8601Ticker → ExecutionContext → Type 0
IsPastRun t ctx =
    (k : ℕ) × (k < t.run_count) × (ctx.scheduled_time ≡ add_wrapped t.start_time (k * t.interval))

-- Each Start adds a place to `others`, so there are at most as many goroutines.
pub record Inv (l : Loop) : Type 0 where
  pub at_run : AtRun l.ticker l.place × All (AtRun l.ticker) l.others
  pub started : sum_of lives (l.place ∷ l.others) ≤ length l.others
  pub limited :
      WithinLimit l.repetitions (l.run_count + sum_of awaits (l.place ∷ l.others)) (length l.others)
  pub buffered : length l.ch ≤ 10
  pub past : All (IsPastRun l.ticker) l.ch

All-IsPastRun-suc :
    (t u : Iso8601Ticker) (ch : List ExecutionContext)
    → u.start_time ≡ t.start_time
    → u.interval ≡ t.interval
    → t.run_count ≤ u.run_count
    → All (IsPastRun t) ch
    → All (IsPastRun u) ch
All-IsPastRun-suc t u [] s i c h = tt
All-IsPastRun-suc t u (x ∷ xs) s i c ((k, lt, e), rest) =
    ((k, omega arith, cc), All-IsPastRun-suc t u xs s i c rest)

abbrev actual_of : Event → Time
actual_of (timer actual now) = actual
actual_of _ = 0

abbrev rest_of : List ExecutionContext → List ExecutionContext
rest_of [] = []
rest_of (x ∷ xs) = xs

abbrev sent : Event → Loop → Time → ExecutionContext
sent e l x = record {
  scheduled_time = x;
  actual_time = actual_of e;
  last_run_time = l.last_run_time;
}

-- A step fires the run that its goroutine waits for and counts it, or leaves the count and sends nothing.
record Effect (e : Event) (l m : Loop) : Type 0 where
  same_start : m.start_time ≡ l.start_time
  same_interval : m.interval ≡ l.interval
  channel :
      ((x : Time) × (l.place ≡ timed x)
        × (m.run_count ≡ suc l.run_count)
        × (m.ch ≡ offer 10 l.ch (sent e l x)))
      ⊎ ((m.run_count ≡ l.run_count) × ((m.ch ≡ l.ch) ⊎ (m.ch ≡ rest_of l.ch)))

step-Effect : (e : Event) (l m : Loop) → step e l ≡ some m → Effect e l m
unfolding step start stop pause resume receive
step-Effect (switch k) l m h = elim (Option-cases (take_at k l.others)) [
  | inl d ↦ ground arith
  | inr ((p, rest), d) ↦ ground arith
]
step-Effect e l m h = ground arith

-- Where the goroutines stand after a step of one of them or a call.
record Stands (l m : Loop) : Type 0 where
  place_after :
      (m.place ≡ l.place)
      ⊎ ((awaits m.place ≡ 0)
          ⊎ ((m.place ≡ timed (calculate_next_run l.ticker)) × (m.run_count ≡ l.run_count)))
  others_after : (m.others ≡ l.others) ⊎ (m.others ≡ l.place ∷ l.others)

step-Stands : (e : Event) (l m : Loop) → step e l ≡ some m → Stands l m ⊎ ((k : ℕ) × (e ≡ switch k))
unfolding step calculate_next_run start stop pause resume receive
step-Stands (switch k) l m h = inr (k, refl)
step-Stands e l m h = inl (ground arith)

AtRun-none : (t : Iso8601Ticker) (p : Place) → awaits p ≡ 0 → AtRun t p
AtRun-none t off h = tt
AtRun-none t head h = tt
AtRun-none t in_pause h = tt
AtRun-none t out_of_window h = tt
AtRun-none t (timed x) h = absurd (omega (arith, h))

AtRun-later :
    (t u : Iso8601Ticker) (p : Place)
    → u.start_time ≡ t.start_time
    → u.interval ≡ t.interval
    → t.run_count ≤ u.run_count
    → AtRun t p
    → AtRun u p
AtRun-later t u off s i c a = tt
AtRun-later t u head s i c a = tt
AtRun-later t u in_pause s i c a = tt
AtRun-later t u out_of_window s i c a = tt
AtRun-later t u (timed x) s i c (k, le, e) = (k, omega arith, cc)

All-AtRun-later :
    (t u : Iso8601Ticker) (ps : List Place)
    → u.start_time ≡ t.start_time
    → u.interval ≡ t.interval
    → t.run_count ≤ u.run_count
    → All (AtRun t) ps
    → All (AtRun u) ps
All-AtRun-later t u [] s i c a = tt
All-AtRun-later t u (p ∷ ps) s i c (a, b) =
    (AtRun-later t u p s i c a, All-AtRun-later t u ps s i c b)

counted : (e : Event) (l m : Loop) → Effect e l m → l.run_count ≤ m.run_count
counted e l m f = ⊎-elim f.channel (λ (x, q, c, d). omega arith) (λ (c, d). omega arith)

Stands-AtRuns :
    (e : Event) (l m : Loop)
    → Effect e l m
    → Stands l m
    → AtRun l.ticker l.place × All (AtRun l.ticker) l.others
    → AtRun m.ticker m.place × All (AtRun m.ticker) m.others
unfolding calculate_next_run
Stands-AtRuns e l m f s (a, b) =
    let c = counted e l m f in
    let old = AtRun-later l.ticker m.ticker l.place f.same_start f.same_interval c a in
    let rest = All-AtRun-later l.ticker m.ticker l.others f.same_start f.same_interval c b in
    (
      ⊎-elim s.place_after (λ q. rw q old)
          (λ r.
            ⊎-elim r (λ z. AtRun-none m.ticker m.place z)
              (λ (q, n). rw q (l.run_count, omega arith, cc (f.same_start, f.same_interval)))),
      ⊎-elim s.others_after (λ q. rw q rest) (λ q. rw q (old, rest)),
    )

switched :
    (k : ℕ) (l m : Loop) (p : Place) (rest : List Place)
    → step (switch k) l ≡ some m
    → take_at k l.others ≡ some (p, rest)
    → (m.ticker ≡ l.ticker) × (m.place ≡ p) × (m.others ≡ l.place ∷ rest)
unfolding step
switched k l m p rest h d = ground arith

switch-AtRuns :
    (k : ℕ) (l m : Loop)
    → step (switch k) l ≡ some m
    → AtRun l.ticker l.place × All (AtRun l.ticker) l.others
    → AtRun m.ticker m.place × All (AtRun m.ticker) m.others
unfolding step
switch-AtRuns k l m h (a, b) = elim (Option-cases (take_at k l.others)) [
  | inl d ↦ ground arith
  | inr ((p, rest), d) ↦
      let (same, at, left) = switched k l m p rest h d in
      let (x, y) = All-take_at (AtRun l.ticker) k l.others rest p d b in
      rw (same, at, left) (x, (a, y))
]

rest_of-All :
    (P : ExecutionContext → Type 0) (ch : List ExecutionContext)
    → length ch ≤ 10
    → All P ch
    → (length (rest_of ch) ≤ 10) × All P (rest_of ch)
rest_of-All P [] f h = (f, h)
rest_of-All P (x ∷ xs) f h = (omega arith, h.1)

step-past :
    (e : Event) (l m : Loop)
    → Effect e l m
    → AtRun l.ticker l.place
    → length l.ch ≤ 10
    → All (IsPastRun l.ticker) l.ch
    → (length m.ch ≤ 10) × All (IsPastRun m.ticker) m.ch
step-past e l m f at b p = ⊎-elim f.channel fired quiet
  where
    kept : l.run_count ≤ m.run_count → All (IsPastRun m.ticker) l.ch
    kept c = All-IsPastRun-suc l.ticker m.ticker l.ch f.same_start f.same_interval c p

    due : (x : Time) → l.place ≡ timed x → AtRun l.ticker (timed x)
    due x q = subst (AtRun l.ticker) q at

    fired :
        ((x : Time) × (l.place ≡ timed x)
          × (m.run_count ≡ suc l.run_count)
          × (m.ch ≡ offer 10 l.ch (sent e l x)))
        → (length m.ch ≤ 10) × All (IsPastRun m.ticker) m.ch
    fired (x, w, c, q) =
        let (k, le, y) = due x w in
        rw q (
          offer-All 10 (IsPastRun m.ticker) l.ch (sent e l x) b (kept (omega arith))
            (k, omega arith, rw (f.same_start, f.same_interval) y))

    quiet :
        (m.run_count ≡ l.run_count) × ((m.ch ≡ l.ch) ⊎ (m.ch ≡ rest_of l.ch))
        → (length m.ch ≤ 10) × All (IsPastRun m.ticker) m.ch
    quiet (c, inl q) = rw q (b, kept (omega arith))
    quiet (c, inr q) = rw q (rest_of-All (IsPastRun m.ticker) l.ch b (kept (omega arith)))

-- Every step keeps the invariant.
pub step-Inv : (e : Event) (l m : Loop) → step e l ≡ some m → Inv l → Inv m
step-Inv e l m h i =
    let f = step-Effect e l m h in
    let (b, p) = step-past e l m f i.at_run.0 i.buffered i.past in
    record {
      at_run =
          ⊎-elim (step-Stands e l m h) (λ s. Stands-AtRuns e l m f s i.at_run)
            (λ (k, q). switch-AtRuns k l m (rw q at h) i.at_run);
      started = step-started e l m h i.started;
      limited = step-limited l m (step-Moved e l m h) i.started i.limited;
      buffered = b;
      past = p;
    }

-- The calls of Start on the way to a state.
abbrev is_start : Event → ℕ
is_start call_start = 1
is_start _ = 0

abbrev pub starts : {l m : Loop} → Reach l m → ℕ
starts here = 0
starts (next r e h) = starts r + is_start e

step-length :
    (e : Event) (l m : Loop) → step e l ≡ some m → length m.others ≤ length l.others + is_start e
unfolding step start stop pause resume receive
step-length (switch k) l m h = elim (Option-cases (take_at k l.others)) [
  | inl d ↦ ground arith
  | inr ((p, rest), d) ↦ ground (arith, length-take_at k l.others rest p d)
]
step-length e l m h = ground arith

-- After any events, the runs counted and those that a goroutine waits for are within the limit on repetitions,
-- but for one more for each goroutine after the first, of which there are at most as many as calls of
-- Start; the channel holds at most 10 contexts, and each of them has the time of a run of the schedule
-- that was counted.
pub iso8601_runs :
    {l m : Loop} → Inv l → (r : Reach l m) → Inv m × (length m.others ≤ length l.others + starts r)
iso8601_runs i here = (i, omega arith)
iso8601_runs i (next {m = m} {n = n} r e h) =
    let (j, c) = iso8601_runs i r in (step-Inv e m n h j, omega (arith, step-length e m n h))
