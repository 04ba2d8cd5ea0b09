-- ===== src/Ticker/Cron/Occurrences.antt =====
-- What `GetOccurrencesBetween` of ticker/cron.go returns, for a schedule as robfig/cron documents it.
use schedule.Base.{
  ℕ, zero, suc, ◌+◌, ◌*◌, ◌≤◌, ◌<◌, ◌≡◌, refl, ◌↔◌, ◌⊎◌, inl, inr, true, false, List, [], ◌∷◌,
  Result, ok, err, arith, ap, sym, subst, ltb, Elem, Bool-cases, ⊎-elim, le_or_lt,
}
use schedule.Ticker.Window.{Time, within_window, max_occurrence_iterations}
use schedule.Ticker.Cron.{Documented, CronTicker, round, collect, get_occurrences_between}

-- An activation in (start, end] and in the window.
pub record IsOccurrence (t : CronTicker) (Active : Time → Type 0) (start end x : Time)
    : Type 0 where
  pub active : Active x
  pub after_start : start < x
  pub to_end : x ≤ end
  pub in_window : within_window t.config x ≡ true

module _ (t : CronTicker) (Active : Time → Type 0) (minute : ℕ)
    (doc : Documented t.schedule Active minute) (end : Time) where
  -- What a round that goes on makes of the later times.
  record GoesOn (current : Time) (ts rest : List Time) : Type 0 where
    reached : t.schedule.next current ≤ end
    found :
        (ts ≡ t.schedule.next current ∷ rest)
          × (within_window t.config (t.schedule.next current) ≡ true)
        ⊎ ((ts ≡ rest) × (within_window t.config (t.schedule.next current) ≡ false))

  round-cases :
      (current : Time) (rest : Result (List Time)) (ts : List Time)
      → round t end current rest ≡ ok ts
      → (ts ≡ []) × (end < t.schedule.next current)
        ⊎ ((r : List Time) × (rest ≡ ok r) × GoesOn current ts r)
  unfolding round
  round-cases current (ok r) ts h = elim (Bool-cases (ltb end (t.schedule.next current))) [
    | inl stop ↦ inl (ground arith)
    | inr go ↦ elim (Bool-cases (ltb current end)) [
      | inl more ↦ inr (r, refl, ground arith)
      | inr stop ↦ inl (ground (arith, doc.later current))
    ]
  ]
  round-cases current (err e) ts h = inl (ground (arith, doc.later current))

  IsOccurrence-earlier :
      (current x : Time)
      → IsOccurrence t Active (t.schedule.next current) end x
      → IsOccurrence t Active current end x
  IsOccurrence-earlier current x o = record {
    active = o.active;
    after_start = omega (arith, o.after_start, doc.later current);
    to_end = o.to_end;
    in_window = o.in_window;
  }

  IsOccurrence-next :
      (current x : Time)
      → t.schedule.next current ≤ end
      → within_window t.config (t.schedule.next current) ≡ true
      → x ≡ t.schedule.next current
      → IsOccurrence t Active current end x
  IsOccurrence-next current x r w e = record {
    active = subst Active (sym e) (doc.active current);
    after_start = omega (arith, doc.later current);
    to_end = omega arith;
    in_window = rw e w;
  }

  round-ok :
      (current : Time) (rest : List Time)
      → (ts : List Time) × (round t end current (ok rest) ≡ ok ts)
  unfolding round
  round-ok current rest = elim (Bool-cases (ltb end (t.schedule.next current))) [
    | inl stop ↦ ([], ground arith)
    | inr go ↦ elim (Bool-cases (ltb current end)) [
      | inr stop ↦ ([], ground arith)
      | inl more ↦ elim (Bool-cases (within_window t.config (t.schedule.next current))) [
        | inl win ↦ (t.schedule.next current ∷ rest, ground arith)
        | inr out ↦ (rest, ground arith)
      ]
    ]
  ]

  collect_sound :
      (left : ℕ) (current : Time) (ts : List Time) (x : Time)
      → collect left t end current ≡ ok ts
      → Elem x ts
      → IsOccurrence t Active current end x
  unfolding collect
  collect_sound zero current ts x h m = let e : ts ≡ [] = ground arith in absurd (rw e at m)
  collect_sound (suc left) current ts x h m = elim (round-cases current _ ts h) [
    | inl (e, _) ↦ absurd (rw e at m)
    | inr (r, e, g) ↦
        let later = λ (k : Elem x r).
          IsOccurrence-earlier current x (collect_sound left (t.schedule.next current) r x e k) in
        elim g.found [
          | inl (eq, win) ↦ ⊎-elim (rw eq at m) (IsOccurrence-next current x g.reached win) later
          | inr (eq, _) ↦ later (rw eq at m)
        ]
  ]

  Elem-round :
      (current x : Time) (ts rest : List Time)
      → GoesOn current ts rest
      → IsOccurrence t Active current end x
      → (IsOccurrence t Active (t.schedule.next current) end x → Elem x rest)
      → Elem x ts
  Elem-round current x ts rest g o later =
      ⊎-elim (le_or_lt x (t.schedule.next current))
        (λ p.
          let e : x ≡ t.schedule.next current =
            omega (arith, doc.least current x o.after_start o.active) in
          ⊎-elim g.found (λ f. rw f.0 (inl e))
            (λ f. absurd (cc (ap (within_window t.config) e, o.in_window, f.1))))
        (λ p.
          let m = later (record {
            active = o.active;
            after_start = p;
            to_end = o.to_end;
            in_window = o.in_window;
          }) in
          ⊎-elim g.found (λ f. rw f.0 (inr m)) (λ f. rw f.0 m))

  collect_complete :
      (left : ℕ) (current : Time) (ts : List Time) (x : Time)
      → collect left t end current ≡ ok ts
      → IsOccurrence t Active current end x
      → Elem x ts
  unfolding collect
  collect_complete zero current ts x h o = absurd (ground (arith, o.after_start, o.to_end))
  collect_complete (suc left) current ts x h o = elim (round-cases current _ ts h) [
    | inl (_, stop) ↦ absurd (omega (arith, o.to_end, doc.least current x o.after_start o.active))
    | inr (r, e, g) ↦
        Elem-round current x ts r g o (collect_complete left (t.schedule.next current) r x e)
  ]

  -- From an activation, every round passes at least a minute.
  collect-ok :
      (left : ℕ) (current : Time)
      → Active current
      → end ≤ current + left * minute
      → (ts : List Time) × (collect left t end current ≡ ok ts)
  unfolding collect
  collect-ok zero current a h = ([], ground arith)
  collect-ok (suc left) current a h =
      let (rest, r) =
        collect-ok left (t.schedule.next current) (doc.active current)
          (omega (arith, doc.spaced current a)) in
      rw r (round-ok current rest)

-- The result holds exactly the activations of the schedule in (start, end] and in the window.
pub cron_occurrences_exact :
    (t : CronTicker) (Active : Time → Type 0) (minute : ℕ)
    → Documented t.schedule Active minute
    → (start end : Time) (ts : List Time) (x : Time) → get_occurrences_between t start end ≡ ok ts
    → Elem x ts ↔ IsOccurrence t Active start end x
unfolding get_occurrences_between
cron_occurrences_exact t Active minute doc start end ts x h = (
  collect_sound t Active minute doc end max_occurrence_iterations start ts x h,
  collect_complete t Active minute doc end max_occurrence_iterations start ts x h,
)

-- A range of at most 9999 minutes is within the limit on rounds, so a list is returned.
pub cron_occurrences_ok :
    (t : CronTicker) (Active : Time → Type 0) (minute : ℕ)
    → Documented t.schedule Active minute
    → (start end : Time) → end ≤ start + 9999 * minute
    → (ts : List Time) × (get_occurrences_between t start end ≡ ok ts)
unfolding get_occurrences_between collect
cron_occurrences_ok t Active minute doc start end h =
    let (rest, r) =
      collect-ok t Active minute doc end 9999 (t.schedule.next start) (doc.active start)
        (omega (arith, doc.later start)) in
    rw r (round-ok t Active minute doc end start rest)
