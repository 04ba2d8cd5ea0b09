-- ===== src/Ticker/Any/Upcoming.antt =====
-- NextRun of the three tickers beside GetOccurrencesBetween.
use schedule.Base.{
  ℕ, ◌+◌, ◌*◌, ◌^◌, ◌%◌, ◌≤◌, ◌<◌, ◌≡◌, sym, ◌∙◌, subst, true, some, List, ok, Elem, inl, inr,
  arith, le_or_lt, ok-injective, refl, ltb,
}
use native.Mathlib.Nat.{mul-le-mul_right}
use schedule.Ticker.Window.{Time, within_window}
use schedule.Ticker.Iso8601.{Iso8601Ticker, calculate_next_run, add_wrapped, limit_reached}
use schedule.Ticker.Iso8601
use schedule.Ticker.Iso8601.Occurrences.{iso8601_occurrences_exact}
use schedule.Ticker.Cron.{CronTicker, Documented}
use schedule.Ticker.Cron.Occurrences.{cron_occurrences_exact}
use schedule.Ticker.Cron
use schedule.Ticker.Once.{OnceTicker, once_occurrences_exact}
use schedule.Ticker.Once
use schedule.Ticker.Any.{Ticker, iso8601, cron, once, next_run, get_occurrences_between}

-- A time that is listed, and no later than the others that are.
abbrev pub IsEarliest : Time → List Time → Type 0
IsEarliest u ts = Elem u ts × ((x : Time) → Elem x ts → u ≤ x)

-- What NextRun takes for granted: the time that an ISO8601 ticker has run for fits into a duration and the
-- runs that it has counted are in the past, and the schedule of a cron ticker is as documented.
abbrev pub IsUpToDate : (Time → Type 0) → ℕ → Time → Ticker → Type 0
IsUpToDate Active minute now (iso8601 t) =
    (t.run_count * t.interval < 2 ^ 63)
    × (t.start_time + t.run_count * t.interval < now + t.interval)
IsUpToDate Active minute now (cron t) = Documented t.schedule Active minute
IsUpToDate Active minute now (once t) = Unit

times_le : (k r i : ℕ) → k < r → k * i + i ≤ r * i
times_le k r i h = omega (arith, mul-le-mul_right i h)

add_wrapped_small : (t d : ℕ) → d < 2 ^ 63 → add_wrapped t d ≡ t + d
unfolding add_wrapped
add_wrapped_small t d h =
    let e : d % 2 ^ 64 ≡ d = omega arith in
    let f : ltb d (2 ^ 63) ≡ true = ground arith in rw (e, f) refl

iso8601-IsEarliest :
    (t : Iso8601Ticker) (now end u : Time) (ts : List Time)
    → t.run_count * t.interval < 2 ^ 63
    → t.start_time + t.run_count * t.interval < now + t.interval
    → Iso8601.next_run t ≡ some u
    → Iso8601.get_occurrences_between t now end ≡ ok ts
    → now ≤ u
    → u < end
    → IsEarliest u ts
unfolding Iso8601.next_run calculate_next_run
iso8601-IsEarliest t now end u ts q p n g a b =
    let plain = add_wrapped_small t.start_time (t.run_count * t.interval) q in
    (
      (iso8601_occurrences_exact t now end ts u g).1 (
        t.run_count,
        ground arith,
        record {
          from_start = a;
          before_end = b;
          in_window = ground arith;
          in_limit = ground arith;
        },
      ),
      λ x m.
          let (k, e, o) = (iso8601_occurrences_exact t now end ts x g).0 m in
          elim (le_or_lt t.run_count k) [
            | inl l ↦
                let f : t.start_time + t.run_count * t.interval ≡ u = ground arith in
                omega (arith, mul-le-mul_right t.interval l, f, e)
            | inr l ↦ absurd (omega (arith, times_le k t.run_count t.interval l, o.from_start, e))
          ],
    )

cron-IsEarliest :
    (t : CronTicker) (Active : Time → Type 0) (minute : ℕ) (now end u : Time) (ts : List Time)
    → Documented t.schedule Active minute
    → Cron.next_run t now ≡ some u
    → Cron.get_occurrences_between t now end ≡ ok ts
    → u < end
    → IsEarliest u ts
unfolding Cron.next_run
cron-IsEarliest t Active minute now end u ts doc n g b =
    let e : t.schedule.next now ≡ u = ground arith in
    let w : within_window t.config u ≡ true = ground arith in
    (
      (cron_occurrences_exact t Active minute doc now end ts u g).1 (record {
        active = subst Active e (doc.active now);
        after_start = omega (arith, doc.later now, e);
        to_end = omega arith;
        in_window = w;
      }),
      λ x m.
          let o = (cron_occurrences_exact t Active minute doc now end ts x g).0 m in
          omega (arith, e, doc.least now x o.after_start o.active),
    )

once-IsEarliest :
    (t : OnceTicker) (now end u : Time) (ts : List Time)
    → Once.next_run t ≡ some u
    → Once.get_occurrences_between t now end ≡ ok ts
    → now < u
    → u < end
    → IsEarliest u ts
unfolding Once.next_run Once.get_occurrences_between
once-IsEarliest t now end u ts n g a b =
    let e : t.scheduled_time ≡ u = ground arith in
    let w : within_window t.config t.scheduled_time ≡ true = ground arith in
    let (ts', h, m) = (once_occurrences_exact t now end u).1 (sym e, a, b, w) in
    (
      subst (Elem u) (ok-injective (sym h ∙ g)) m,
      λ x m.
          let (f, _, _, _) = (once_occurrences_exact t now end x).0 (ts, g, m) in
          omega (arith, e, f),
    )

-- A time that NextRun reports is the earliest of the times that GetOccurrencesBetween lists from now
-- on, whenever it is listed at all: it is after now and before the end of the range, the runs that an
-- ISO8601 ticker has counted are in the past and span less than a duration can hold, and the schedule of a cron ticker is as documented.
pub next_run-IsEarliest :
    (Active : Time → Type 0) (minute : ℕ) (t : Ticker) (now end u : Time) (ts : List Time)
    → IsUpToDate Active minute now t
    → next_run t now ≡ some u
    → get_occurrences_between t now end ≡ ok ts
    → now < u
    → u < end
    → IsEarliest u ts
unfolding next_run get_occurrences_between
next_run-IsEarliest Active minute (iso8601 t) now end u ts p n g a b =
    iso8601-IsEarliest t now end u ts p.0 p.1 n g (omega arith) b
next_run-IsEarliest Active minute (cron t) now end u ts p n g a b =
    cron-IsEarliest t Active minute now end u ts p n g b
next_run-IsEarliest Active minute (once t) now end u ts p n g a b =
    once-IsEarliest t now end u ts n g a b
