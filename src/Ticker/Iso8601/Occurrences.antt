-- ===== src/Ticker/Iso8601/Occurrences.antt =====
-- What `GetOccurrencesBetween` of ticker/iso8601.go returns.
use schedule.Base.{
  ℕ, zero, suc, ◌+◌, ◌*◌, ◌≤◌, ◌<◌, ◌≡◌, refl, ◌↔◌, ◌⊎◌, inl, inr, true, false, not, ◌&&◌, List, [],
  ◌∷◌, ap, subst, add-zero, le_or_lt, ⊎-elim, ℤ, pos, negsuc, Result, ok, err, too_many_occurrences,
  arith, ltb, leb, Elem, Bool-cases,
}
use schedule.Ticker.Window.{Time, within_window, max_occurrence_iterations}
use schedule.Ticker.Iso8601.{Iso8601Ticker, limit_reached, round, collect, get_occurrences_between}

-- The n-th time x of the schedule is one to report for [start, end).
pub record IsOccurrence (t : Iso8601Ticker) (start end x : Time) (n : ℕ) : Type 0 where
  pub from_start : start ≤ x
  pub before_end : x < end
  pub in_window : within_window t.config x ≡ true
  pub in_limit : limit_reached t.repetitions n ≡ false

limit_later :
    (n : ℤ) (count k : ℕ) → limit_reached n (count + k) ≡ false → limit_reached n count ≡ false
unfolding limit_reached
limit_later (pos zero) count k h = refl
limit_later (pos (suc n)) count k h = ground arith
limit_later (negsuc n) count k h = refl

module _ (t : Iso8601Ticker) (start end : Time) where
  -- One round of the loop that returns: it stops, or it goes on with the rest.
  abbrev Stops : Time → ℕ → List Time → Type 0
  Stops current count ts =
      (ts ≡ []) × ((end ≤ current) ⊎ (limit_reached t.repetitions count ≡ true))

  record GoesOn (current count : ℕ) (ts rest : List Time) : Type 0 where
    before : current < end
    limit : limit_reached t.repetitions count ≡ false
    few : suc count ≤ max_occurrence_iterations
    found :
        (ts ≡ current ∷ rest) × (start ≤ current) × (within_window t.config current ≡ true)
        ⊎ ((ts ≡ rest) × ((current < start) ⊎ (within_window t.config current ≡ false)))

  round-cases :
      (current count : ℕ) (rest : Result (List Time)) (ts : List Time)
      → round t start end current count rest ≡ ok ts
      → Stops current count ts ⊎ ((r : List Time) × (rest ≡ ok r) × GoesOn current count ts r)
  unfolding round
  round-cases current count (ok r) ts h =
      elim (Bool-cases (ltb current end && not (limit_reached t.repetitions count))) [
        | inl go ↦ inr (r, refl, ground arith)
        | inr stop ↦ inl (ground arith)
      ]
  round-cases current count (err e) ts h = inl (ground arith)

  -- x is a time of the schedule that `collect` is to find from `current` on.
  abbrev Found : Time → Time → ℕ → Type 0
  Found x current count =
      (k : ℕ) × (x ≡ current + k * t.interval) × IsOccurrence t start end x (count + k)

  Found-later :
      (x current : Time) (count : ℕ)
      → Found x (current + t.interval) (suc count)
      → Found x current count
  Found-later x current count (k, e, o) =
      (suc k, omega arith, subst (IsOccurrence t start end x) (omega arith) o)

  Found-here :
      (x current : Time) (count : ℕ) (ts rest : List Time)
      → GoesOn current count ts rest
      → start ≤ current
      → within_window t.config current ≡ true
      → x ≡ current
      → Found x current count
  Found-here x current count ts rest g from win e = (
    0,
    omega arith,
    record {
      from_start = omega arith;
      before_end = omega (arith, g.before);
      in_window = rw e win;
      in_limit = rw add-zero g.limit;
    },
  )

  round-ok :
      (current : Time) (count : ℕ) (rest : List Time)
      → count < max_occurrence_iterations
      → (ts : List Time) × (round t start end current count (ok rest) ≡ ok ts)
  unfolding round
  round-ok current count rest h =
      elim (Bool-cases (leb start current && within_window t.config current)) [
        | inl found ↦
            elim (Bool-cases (ltb current end && not (limit_reached t.repetitions count))) [
              | inl go ↦ (current ∷ rest, ground arith)
              | inr stop ↦ ([], ground arith)
            ]
        | inr missed ↦
            elim (Bool-cases (ltb current end && not (limit_reached t.repetitions count))) [
              | inl go ↦ (rest, ground arith)
              | inr stop ↦ ([], ground arith)
            ]
      ]

  collect_sound :
      (fuel : ℕ) (current : Time) (count : ℕ) (ts : List Time) (x : Time)
      → collect fuel t start end current count ≡ ok ts
      → Elem x ts
      → Found x current count
  unfolding collect
  collect_sound zero current count ts x h m = cc
  collect_sound (suc fuel) current count ts x h m = elim (round-cases current count _ ts h) [
    | inl (e, _) ↦ absurd (rw e at m)
    | inr (r, e, g) ↦
        let later = λ (m : Elem x r).
          Found-later x current count
            (collect_sound fuel (current + t.interval) (suc count) r x e m) in
        elim g.found [
          | inl (eq, from, win) ↦
              ⊎-elim (rw eq at m) (Found-here x current count ts r g from win) later
          | inr (eq, _) ↦ later (rw eq at m)
        ]
  ]

  Elem-now :
      (x current : Time) (count n : ℕ) (ts rest : List Time)
      → GoesOn current count ts rest
      → IsOccurrence t start end x n
      → x ≡ current
      → Elem x ts
  Elem-now x current count n ts rest g o e =
      ⊎-elim g.found (λ f. rw f.0 (inl e))
        (λ f. absurd (
          ⊎-elim f.1 (λ early. omega (arith, o.from_start))
            (λ out. cc (ap (within_window t.config) e, o.in_window))))

  Elem-rest :
      (x current : Time) (count : ℕ) (ts rest : List Time)
      → GoesOn current count ts rest
      → Elem x rest
      → Elem x ts
  Elem-rest x current count ts rest g m = ⊎-elim g.found (λ f. rw f.0 (inr m)) (λ f. rw f.0 m)

  -- Once the limit is reached or the end passed, no later time counts.
  collect_complete :
      (fuel : ℕ) (current : Time) (count : ℕ) (ts : List Time) (x : Time)
      → collect fuel t start end current count ≡ ok ts
      → Found x current count
      → Elem x ts
  unfolding collect
  collect_complete zero current count ts x h f = cc
  collect_complete (suc fuel) current count ts x h (zero, e, o) =
      elim (round-cases current count _ ts h) [
        | inl (_, inl passed) ↦ absurd (omega (arith, o.before_end))
        | inl (_, inr full) ↦ cc (limit_later t.repetitions count 0 o.in_limit)
        | inr (r, _, g) ↦ Elem-now x current count (count + 0) ts r g o (omega arith)
      ]
  collect_complete (suc fuel) current count ts x h (suc k, e, o) =
      elim (round-cases current count _ ts h) [
        | inl (_, inl passed) ↦ absurd (omega (arith, o.before_end))
        | inl (_, inr full) ↦ cc (limit_later t.repetitions count (suc k) o.in_limit)
        | inr (r, e', g) ↦ Elem-rest x current count ts r g (
            collect_complete fuel (current + t.interval) (suc count) r x e'
              (k, omega arith, subst (IsOccurrence t start end x) (omega arith) o))
      ]

  -- The last time that the limit on rounds lets through is out of the range or of the limit.
  collect-ok :
      (left : ℕ) (current : Time) (count : ℕ)
      → count + left ≡ max_occurrence_iterations
      → (end ≤ current + left * t.interval) ⊎ (limit_reached t.repetitions (count + left) ≡ true)
      → (ts : List Time) × (collect (suc left) t start end current count ≡ ok ts)
  unfolding collect
  collect-ok zero current count f e = ([], ground (arith, add-zero count))
  collect-ok (suc left) current count f e =
      let (rest, r) = collect-ok left (current + t.interval) (suc count) (omega arith) (
        ⊎-elim e (λ p. inl (omega arith))
          (λ p. inr (subst (λ n. limit_reached t.repetitions n ≡ true) (omega arith) p))) in
      rw r (round-ok current count rest (omega arith))

  collect-fails :
      (left : ℕ) (current : Time) (count : ℕ)
      → count + left ≡ max_occurrence_iterations
      → current + left * t.interval < end
      → limit_reached t.repetitions (count + left) ≡ false
      → collect (suc left) t start end current count ≡ err too_many_occurrences
  unfolding collect
  collect-fails zero current count f e l = ground (arith, add-zero count)
  collect-fails (suc left) current count f e l = ground (
    arith,
    limit_later t.repetitions count (suc left) l,
    collect-fails left (current + t.interval) (suc count) (omega arith) (omega arith)
        (subst (λ n. limit_reached t.repetitions n ≡ false) (omega arith) l),
  )

-- The k-th time of the schedule is start_time + k * interval. The result holds exactly the times of
-- the schedule, below the limit on repetitions if there is one, in [start, end) and in the window.
pub iso8601_occurrences_exact :
    (t : Iso8601Ticker) (start end : Time) (ts : List Time) (x : Time)
    → get_occurrences_between t start end ≡ ok ts
    → Elem x ts ↔ ((k : ℕ) × (x ≡ t.start_time + k * t.interval) × IsOccurrence t start end x k)
unfolding get_occurrences_between
iso8601_occurrences_exact t start end ts x h = (
  λ m.
      let (k, e, o) =
        collect_sound t start end (suc max_occurrence_iterations) t.start_time 0 ts x h m in
      (k, e, subst (IsOccurrence t start end x) (omega arith) o),
  λ (k, e, o).
      collect_complete t start end (suc max_occurrence_iterations) t.start_time 0 ts x h
        (k, e, subst (IsOccurrence t start end x) (omega arith) o),
)

-- It fails exactly when the time after the first 10000 is still before the end and the limit on
-- repetitions, if there is one, is above 10000; otherwise it returns a list.
pub iso8601_occurrences_error :
    (t : Iso8601Ticker) (start end : Time)
    → let fails =
        (t.start_time + max_occurrence_iterations * t.interval < end)
        × (limit_reached t.repetitions max_occurrence_iterations ≡ false) in
      (fails → get_occurrences_between t start end ≡ err too_many_occurrences)
      × (¬ fails → (ts : List Time) × (get_occurrences_between t start end ≡ ok ts))
unfolding get_occurrences_between
iso8601_occurrences_error t start end = (
  λ f. collect-fails t start end max_occurrence_iterations t.start_time 0 refl f.0 f.1,
  λ n.
      collect-ok t start end max_occurrence_iterations t.start_time 0 refl
        (elim (Bool-cases (limit_reached t.repetitions max_occurrence_iterations)) [
          | inl full ↦ inr full
          | inr room ↦
              ⊎-elim (le_or_lt end (t.start_time + max_occurrence_iterations * t.interval)) inl
                (λ p. absurd (n (p, room)))
        ]),
)
