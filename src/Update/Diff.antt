-- ===== src/Update/Diff.antt =====
-- DiffSchedules of update/update.go. A Go time as a key of a map is its instant with the pointer to
-- its location; time.LoadLocation makes a new pointer each time, save for UTC and Local, so the
-- location of a ticker stands for its pointer.
use schedule.Base.{
  ◌≡◌, ◌≢◌, refl, sym, subst, ap, ◌↔◌, ◌⊎◌, inl, inr, Bool, true, false, ◌&&◌, ◌||◌, not,
  Bool-cases, List, [], ◌∷◌, Result, ok, ◌>>=◌, keep, Elem, Elem-keep, arith, ◌==◌,
}
use schedule.Ticker.Window.{Time, Location}
use schedule.Ticker.Any.{Ticker, get_occurrences_between, location}

-- `m[t]` for a map made of the times of a list, which are in one location.
unfoldable pub is_key : Location → List Time → Location → Time → Bool
is_key l [] k t = false
is_key l (x ∷ xs) k t = (l == k && x == t) || is_key l xs k t

-- The loop that appends the times that are no keys.
unfoldable pub missing_from : Location → List Time → Location → List Time → List Time
missing_from l xs k ys = keep (λ t. not (is_key l xs k t)) ys

-- The times that are added and those that are removed.
unfoldable pub diff_schedules : Ticker → Ticker → Time → Time → Result (List Time × List Time)
diff_schedules old new start end = do
  old_times ← get_occurrences_between old start end
  new_times ← get_occurrences_between new start end
  ok (
    missing_from (location old) old_times (location new) new_times,
    missing_from (location new) new_times (location old) old_times,
  )

is_key-Elem : (l : Location) (xs : List Time) (t : Time) → (is_key l xs l t ≡ true) ↔ Elem t xs
unfolding is_key
is_key-Elem l [] t = (λ h. absurd (cc), λ m. absurd m)
is_key-Elem l (x ∷ xs) t = ground (arith, is_key-Elem l xs t)

is_key_elsewhere :
    (l : Location) (xs : List Time) (k : Location) (t : Time) → l ≢ k → is_key l xs k t ≡ false
unfolding is_key
is_key_elsewhere l [] k t n = refl
is_key_elsewhere l (x ∷ xs) k t n = ground (arith, is_key_elsewhere l xs k t n)

negation_holds : (b : Bool) → (not b ≡ true) ↔ (b ≡ true → ⊥)
negation_holds true = (λ h. absurd (cc), λ n. absurd (n refl))
negation_holds false = (λ h e. cc (e), λ n. refl)

missing_from_exact :
    (l : Location) (xs ys : List Time) (t : Time)
    → Elem t (missing_from l xs l ys) ↔ (Elem t ys × (Elem t xs → ⊥))
unfolding missing_from
missing_from_exact l xs ys t =
    let (kept, keeps) = Elem-keep (λ t. not (is_key l xs l t)) ys t in
    let (key, elem) = is_key-Elem l xs t in
    (
      λ m. let (a, b) = kept m in (a, λ e. (negation_holds (is_key l xs l t)).0 b (elem e)),
      λ (a, n). keeps (a, (negation_holds (is_key l xs l t)).1 (λ h. n (key h))),
    )

missing_from_elsewhere :
    (l : Location) (xs : List Time) (k : Location) (ys : List Time)
    → l ≢ k
    → missing_from l xs k ys ≡ ys
unfolding missing_from
missing_from_elsewhere l xs k [] n = refl
missing_from_elsewhere l xs k (y ∷ ys) n =
    rw (is_key_elsewhere l xs k y n)
      (ap (λ zs. y ∷ zs) (unfold missing_from in missing_from_elsewhere l xs k ys n))

same_or_apart : (l m : Location) → (l ≡ m) ⊎ (l ≢ m)
same_or_apart l m = elim (Bool-cases (l == m)) [
  | inl y ↦ inl (ground (arith, y))
  | inr f ↦ inr (λ e. absurd (ground (arith, f, e)))
]

-- What the difference of two schedules is, given the times of both.
abbrev pub Differ :
    Ticker → Ticker → List Time → List Time → Result (List Time × List Time) → Type 0
Differ old new old_times new_times result =
    (added removed : List Time) × (result ≡ ok (added, removed))
    × (((location old ≡ location new)
          × ((t : Time)
              → (Elem t added ↔ (Elem t new_times × (Elem t old_times → ⊥)))
                × (Elem t removed ↔ (Elem t old_times × (Elem t new_times → ⊥)))))
        ⊎ ((location old ≢ location new) × (added ≡ new_times) × (removed ≡ old_times)))

-- Whenever both tickers give their times, the difference of their schedules is a pair of lists. In one
-- location, a time is added if and only if the new schedule has it and the old one has not, and
-- removed if and only if the old one has it and the new one has not. In two locations, all new times
-- are added and all old times are removed.
pub diff_schedules_exact :
    (old new : Ticker) (start end : Time) (old_times new_times : List Time)
    → get_occurrences_between old start end ≡ ok old_times
    → get_occurrences_between new start end ≡ ok new_times
    → Differ old new old_times new_times (diff_schedules old new start end)
unfolding diff_schedules
diff_schedules_exact old new start end old_times new_times h k =
    let l = location old in
    let m = location new in
    (
      missing_from l old_times m new_times,
      missing_from m new_times l old_times,
      rw (diff_schedules, h, k) refl,
      elim (same_or_apart l m) [
        | inl e ↦ inl (
          e,
          λ t. (
            subst
                (λ x.
                  Elem t (missing_from l old_times x new_times)
                  ↔ (Elem t new_times × (Elem t old_times → ⊥)))
                e (missing_from_exact l old_times new_times t),
            subst
                (λ x.
                  Elem t (missing_from x new_times l old_times)
                  ↔ (Elem t old_times × (Elem t new_times → ⊥)))
                e (missing_from_exact l new_times old_times t),
          ),
        )
        | inr n ↦ inr (
          n,
          missing_from_elsewhere l old_times m new_times n,
          missing_from_elsewhere m new_times l old_times (λ e. n (sym e)),
        )
      ],
    )
