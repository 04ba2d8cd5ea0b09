-- ===== src/Recovery/Window.antt =====
-- What the bounded window of recovery/recovery.go selects.
use schedule.Base.{
  add-zero, Option, some, ℕ, ◌+◌, ◌-◌, ◌≤◌, ◌<◌, ◌≡◌, refl, sym, ap, ◌∙◌, subst, ◌↔◌, ◌⊎◌, inl, inr,
  true, false, Bool-cases, List, [], ◌∷◌, ◌++◌, length, drop, ltb, Elem, Elem-keep, Elem-append,
  is_pos, pos_part, arith, length-drop, zero, suc,
}
use schedule.Ticker.Window.{Time}
use schedule.Types.{BoundedWindow, bounded_window}
use schedule.Storage.{Storage}
use schedule.Ids.{Formats}
use schedule.Job.{Job}
use schedule.Executor.{Env}
use schedule.Dispatch.{Node}
use schedule.Recovery.{is_recent, recent, latest, run_all, run_bounded, by_strategy, apply_strategy}

split_drop : (n : ℕ) (xs : List Time) → (ys : List Time) × (xs ≡ ys ++ drop n xs)
split_drop zero xs = ([], refl)
split_drop (suc n) [] = ([], refl)
split_drop (suc n) (x ∷ xs) = let (ys, e) = split_drop n xs in (x ∷ ys, ap (λ l. x ∷ l) e)

-- A missed time that is not too old, if the window bounds the age.
abbrev pub IsRecent : BoundedWindow → Time → List Time → Time → Type 0
IsRecent w now times t =
    Elem t times × ((is_pos w.max_duration ≡ false) ⊎ (now < t + pos_part w.max_duration))

recent_sound :
    (w : BoundedWindow) (now : Time) (times : List Time) (t : Time)
    → Elem t (recent w now times)
    → IsRecent w now times t
unfolding recent is_recent
recent_sound w now times t m = elim (Bool-cases (is_pos w.max_duration)) [
  | inl y ↦
      let (a, b) =
        (Elem-keep (is_recent (pos_part w.max_duration) now) times t).0 (rw (y, recent) at m) in
      (a, inr (ground (arith, b)))
  | inr f ↦ (rw (f, recent) at m, inl f)
]

recent_complete :
    (w : BoundedWindow) (now : Time) (times : List Time) (t : Time)
    → IsRecent w now times t
    → Elem t (recent w now times)
unfolding recent is_recent
recent_complete w now times t (m, inl f) = rw (f, recent) m
recent_complete w now times t (m, inr l) = elim (Bool-cases (is_pos w.max_duration)) [
  | inl y ↦
      rw (y, recent)
        ((Elem-keep (is_recent (pos_part w.max_duration) now) times t).1 (m, ground (arith, l)))
  | inr f ↦ rw (f, recent) m
]

le_of_ltb : (a b : ℕ) → ltb a b ≡ false → b ≤ a
le_of_ltb a b h = ground arith

rest_of_ltb : (a b : ℕ) → ltb a b ≡ true → b - (b - a) ≡ a
rest_of_ltb a b h = ground arith

latest_split :
    (w : BoundedWindow) (ts : List Time)
    → (older : List Time) × (ts ≡ older ++ latest w ts)
      × ((older ≡ [])
            × ((is_pos w.max_occurrences ≡ false)
                ⊎ (length (latest w ts) ≤ pos_part w.max_occurrences))
          ⊎ (is_pos w.max_occurrences ≡ true) × (length (latest w ts) ≡ pos_part w.max_occurrences))
unfolding latest
latest_split w ts =
    let most = pos_part w.max_occurrences in
    elim (Bool-cases (is_pos w.max_occurrences)) [
      | inr f ↦ rw (f, latest) ([], refl, inl (refl, inl refl))
      | inl y ↦ elim (Bool-cases (ltb most (length ts))) [
        | inr g ↦ rw (y, g, latest) ([], refl, inl (refl, inr (le_of_ltb most (length ts) g)))
        | inl l ↦
            let (older, e) = split_drop (length ts - most) ts in
            let cut : length (drop (length ts - most) ts) ≡ most =
              length-drop (length ts - most) ts ∙ rest_of_ltb most (length ts) l in
            rw (y, l, latest) (older, e, inr (refl, cut))
      ]
    ]

-- The last ones of the missed times that are not too old: as many as the window allows if there are more,
-- and else all of them.
abbrev pub Chosen : BoundedWindow → Time → List Time → List Time → Type 0
Chosen w now times chosen =
    (older : List Time) × ((t : Time) → IsRecent w now times t ↔ (Elem t older ⊎ Elem t chosen))
    × (recent w now times ≡ older ++ chosen)
    × ((older ≡ [])
          × ((is_pos w.max_occurrences ≡ false) ⊎ (length chosen ≤ pos_part w.max_occurrences))
        ⊎ (is_pos w.max_occurrences ≡ true) × (length chosen ≡ pos_part w.max_occurrences))

-- What the window leaves of the missed times.
latest-recent :
    (w : BoundedWindow) (now : Time) (times : List Time)
    → Chosen w now times (latest w (recent w now times))
unfolding latest
latest-recent w now times =
    let (older, e, h) = latest_split w (recent w now times) in
    (
      older,
      λ t. (
        λ r. (Elem-append older _ t).0 (subst (Elem t) e (recent_complete w now times t r)),
        λ m. recent_sound w now times t (subst (Elem t) (sym e) ((Elem-append older _ t).1 m)),
      ),
      e,
      h,
    )

module _ (st : Storage) (env : Env) (ids : Formats) where
  -- The recovery runs are those of the times that are chosen, from a node that differs from the first at
  -- most in how often the clock was read.
  abbrev pub RunsChosen : BoundedWindow → Job → List Time → Node st → Option (Node st) → Type 0
  RunsChosen w job times n result =
      (chosen : List Time) × (read : ℕ) × Chosen w (env.clock n.world.asked) times chosen
      × (result
          ≡ run_all st env ids job chosen
              (record n { world = record n.world { asked = n.world.asked + read } }))

  run_bounded-Chosen :
      (w : BoundedWindow) (job : Job) (times : List Time) (n : Node st)
      → job.config.bounded_window ≡ some w
      → RunsChosen w job times n (run_bounded st env ids job times n)
  unfolding run_bounded
  run_bounded-Chosen w job times n h =
      let now = env.clock n.world.asked in
      let chosen = latest w (recent w now times) in
      elim (Bool-cases (is_pos w.max_duration)) [
        | inl y ↦ (chosen, 1, latest-recent w now times, simp (h, y, run_bounded) refl)
        | inr f ↦ (
          chosen,
          0,
          latest-recent w now times,
          simp (h, f, run_bounded, add-zero n.world.asked) refl,
        )
      ]

  latest-empty : (w : BoundedWindow) (now : Time) → latest w (recent w now []) ≡ []
  unfolding latest recent
  latest-empty w now = ground arith

  Chosen-empty : (w : BoundedWindow) (now : Time) → Chosen w now [] []
  Chosen-empty w now = subst (Chosen w now []) (latest-empty w now) (latest-recent w now [])

  -- A recovery by the bounded window, if the job has one, runs of the missed times that are not too old the
  -- last ones, and no other: as many as the window allows if there are more, and else all of them.
  pub apply_strategy-Chosen :
      (w : BoundedWindow) (job : Job) (times : List Time) (n : Node st)
      → job.config.recovery_strategy ≡ bounded_window
      → job.config.bounded_window ≡ some w
      → RunsChosen w job times n (apply_strategy st env ids job times n)
  unfolding apply_strategy by_strategy run_all
  apply_strategy-Chosen w job [] n b h =
      ([], 0, Chosen-empty w (env.clock n.world.asked), rw (add-zero n.world.asked) refl)
  apply_strategy-Chosen w job (t ∷ ts) n b h =
      simp (apply_strategy, by_strategy, b) (run_bounded-Chosen w job (t ∷ ts) n h)
