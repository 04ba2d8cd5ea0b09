-- ===== src/Scheduler/Tasks/Merged.antt =====
-- What the map of tasks of UpdateJob in scheduler/scheduler.go holds for each identifier.
use schedule.Base.{
  ◌≡◌, refl, sym, ap, ◌∙◌, ◌↔◌, inl, inr, true, Bool-cases, none, some, some-injective, List, [],
  ◌∷◌, Text, text_eq, text_eq-true, text_eq_refl, Elem, arith, if◌then◌else◌,
}
use schedule.Job.{Task}
use schedule.Scheduler.Tasks.{
  task_at, put_task, put_tasks, drop_task, drop_tasks, changed, change_task, change_tasks,
  merged_tasks, last_with, is_among, or_else, apply_change, wanted_task,
}

text_eq_sym : (a b : Text) → text_eq a b ≡ text_eq b a
text_eq_sym a b = elim (Bool-cases (text_eq a b)) [
  | inl y ↦ let e = text_eq-true a b y in y ∙ sym (ap (λ c. text_eq c a) (sym e) ∙ text_eq_refl a)
  | inr n ↦ elim (Bool-cases (text_eq b a)) [
    | inl y ↦ absurd (cc (n, ap (λ c. text_eq a c) (text_eq-true b a y), text_eq_refl a))
    | inr m ↦ n ∙ sym m
  ]
]

-- Two texts that equal a third are equal or not to any other alike.
same_text : (a b c : Text) → text_eq a b ≡ true → text_eq a c ≡ text_eq b c
same_text a b c h = ap (λ x. text_eq x c) (text_eq-true a b h)

task_at-put :
    (id : Text) (t : Task) (m : List Task)
    → task_at id (put_task t m) ≡ (if text_eq t.id id then some t else task_at id m)
unfolding task_at put_task
task_at-put id t [] = refl
task_at-put id t (x ∷ xs) = elim (Bool-cases (text_eq x.id t.id)) [
  | inl y ↦ ground (arith, same_text x.id t.id id y)
  | inr n ↦ ground (arith, task_at-put id t xs, same_text x.id id t.id, text_eq_sym id t.id)
]

task_at-put_tasks :
    (id : Text) (ts m : List Task)
    → task_at id (put_tasks ts m) ≡ or_else (last_with id ts) (task_at id m)
unfolding put_tasks last_with or_else
task_at-put_tasks id [] m = refl
task_at-put_tasks id (t ∷ ts) m =
    ground (arith, task_at-put_tasks id ts (put_task t m), task_at-put id t m)

task_at-drop :
    (id j : Text) (m : List Task)
    → task_at id (drop_task j m) ≡ (if text_eq j id then none else task_at id m)
unfolding task_at drop_task
task_at-drop id j [] = ground arith
task_at-drop id j (x ∷ xs) = elim (Bool-cases (text_eq x.id j)) [
  | inl y ↦ ground (arith, task_at-drop id j xs, same_text x.id j id y)
  | inr n ↦ ground (arith, task_at-drop id j xs, same_text x.id id j, text_eq_sym id j)
]

task_at-drop_tasks :
    (id : Text) (js : List Text) (m : List Task)
    → task_at id (drop_tasks js m) ≡ (if is_among id js then none else task_at id m)
unfolding drop_tasks is_among
task_at-drop_tasks id [] m = refl
task_at-drop_tasks id (j ∷ js) m =
    ground (arith, task_at-drop_tasks id js (drop_task j m), task_at-drop id j m)

task_at-change :
    (id : Text) (by : Task) (m : List Task)
    → task_at id (change_task by m)
      ≡ (if text_eq by.id id then apply_change (some by) (task_at id m) else task_at id m)
unfolding task_at change_task apply_change changed
task_at-change id by [] = ground arith
task_at-change id by (x ∷ xs) = elim (Bool-cases (text_eq x.id by.id)) [
  | inl y ↦ ground (arith, same_text x.id by.id id y)
  | inr n ↦ ground (arith, task_at-change id by xs, same_text x.id id by.id, text_eq_sym id by.id)
]

task_at-change_tasks :
    (id : Text) (us m : List Task)
    → task_at id (change_tasks us m) ≡ apply_change (last_with id us) (task_at id m)
unfolding change_tasks last_with apply_change changed
task_at-change_tasks id [] m = refl
task_at-change_tasks id (by ∷ us) m =
    ground (arith, task_at-change_tasks id us (change_task by m), task_at-change id by m)

-- For each identifier, the map holds what it is for.
task_at-merged :
    (id : Text) (tasks added : List Task) (removed : List Text) (updated : List Task)
    → task_at id (merged_tasks tasks added removed updated)
      ≡ wanted_task id tasks added removed updated
unfolding merged_tasks wanted_task or_else apply_change task_at
task_at-merged id tasks added removed updated =
    let kept = put_tasks added (put_tasks tasks []) in
    ground (
      arith,
      task_at-change_tasks id updated (drop_tasks removed kept),
      task_at-drop_tasks id removed kept,
      task_at-put_tasks id added (put_tasks tasks []),
      task_at-put_tasks id tasks [],
    )

-- No two tasks have one identifier.
abbrev pub DistinctIds : List Task → Type 0
DistinctIds [] = Unit
DistinctIds (t ∷ ts) = (task_at t.id ts ≡ none) × DistinctIds ts

put-DistinctIds : (t : Task) (m : List Task) → DistinctIds m → DistinctIds (put_task t m)
unfolding put_task task_at
put-DistinctIds t [] d = (refl, tt)
put-DistinctIds t (x ∷ xs) d = elim (Bool-cases (text_eq x.id t.id)) [
  | inl y ↦ rw (y, put_task) (sym (ap (λ i. task_at i xs) (text_eq-true x.id t.id y)) ∙ d.0, d.1)
  | inr n ↦
      rw (n, put_task)
        (
          task_at-put x.id t xs ∙ ground (arith, text_eq_sym x.id t.id, d.0),
          put-DistinctIds t xs d.1,
        )
]

drop-DistinctIds : (j : Text) (m : List Task) → DistinctIds m → DistinctIds (drop_task j m)
unfolding drop_task
drop-DistinctIds j [] d = tt
drop-DistinctIds j (x ∷ xs) d = elim (Bool-cases (text_eq x.id j)) [
  | inl y ↦ rw (y, drop_task) (drop-DistinctIds j xs d.1)
  | inr n ↦
      rw (n, drop_task) (task_at-drop x.id j xs ∙ ground (arith, d.0), drop-DistinctIds j xs d.1)
]

change-DistinctIds : (by : Task) (m : List Task) → DistinctIds m → DistinctIds (change_task by m)
unfolding change_task changed apply_change
change-DistinctIds by [] d = tt
change-DistinctIds by (x ∷ xs) d = elim (Bool-cases (text_eq x.id by.id)) [
  | inl y ↦ rw (y, change_task) d
  | inr n ↦
      rw (n, change_task)
        (task_at-change x.id by xs ∙ ground (arith, d.0), change-DistinctIds by xs d.1)
]

put_tasks-DistinctIds : (ts m : List Task) → DistinctIds m → DistinctIds (put_tasks ts m)
unfolding put_tasks
put_tasks-DistinctIds [] m d = d
put_tasks-DistinctIds (t ∷ ts) m d = put_tasks-DistinctIds ts (put_task t m) (put-DistinctIds t m d)

drop_tasks-DistinctIds :
    (js : List Text) (m : List Task) → DistinctIds m → DistinctIds (drop_tasks js m)
unfolding drop_tasks
drop_tasks-DistinctIds [] m d = d
drop_tasks-DistinctIds (j ∷ js) m d =
    drop_tasks-DistinctIds js (drop_task j m) (drop-DistinctIds j m d)

change_tasks-DistinctIds : (us m : List Task) → DistinctIds m → DistinctIds (change_tasks us m)
unfolding change_tasks
change_tasks-DistinctIds [] m d = d
change_tasks-DistinctIds (by ∷ us) m d =
    change_tasks-DistinctIds us (change_task by m) (change-DistinctIds by m d)

merged-DistinctIds :
    (tasks added : List Task) (removed : List Text) (updated : List Task)
    → DistinctIds (merged_tasks tasks added removed updated)
unfolding merged_tasks
merged-DistinctIds tasks added removed updated = change_tasks-DistinctIds updated _ (
    drop_tasks-DistinctIds removed _
      (put_tasks-DistinctIds added _ (put_tasks-DistinctIds tasks [] tt)))

Elem-task_at : (m : List Task) (x : Task) → DistinctIds m → Elem x m → task_at x.id m ≡ some x
unfolding task_at
Elem-task_at [] x d e = absurd e
Elem-task_at (y ∷ ys) x d (inl e) =
    ground (arith, ap (λ (t : Task). text_eq t.id x.id) e, text_eq_refl x.id)
Elem-task_at (y ∷ ys) x d (inr e) =
    let there = Elem-task_at ys x d.1 e in
    elim (Bool-cases (text_eq y.id x.id)) [
      | inl q ↦ absurd (cc (d.0, there, ap (λ i. task_at i ys) (text_eq-true y.id x.id q)))
      | inr n ↦ rw (n, task_at) there
    ]

task_at-Elem :
    (m : List Task) (x : Task) (id : Text) → task_at id m ≡ some x → Elem x m × (x.id ≡ id)
unfolding task_at
task_at-Elem [] x id e = absurd (cc)
task_at-Elem (y ∷ ys) x id e = elim (Bool-cases (text_eq y.id id)) [
  | inl q ↦
      let same = some-injective _ _ (rw (q, task_at) at e) in
      (inl (sym same), sym (ap (λ (t : Task). t.id) same) ∙ text_eq-true y.id id q)
  | inr n ↦ let (m, i) = task_at-Elem ys x id (rw (n, task_at) at e) in (inr m, i)
]

-- The map has a task if and only if it is what the map is for under its own identifier.
pub merged_exact :
    (tasks added : List Task) (removed : List Text) (updated : List Task) (x : Task)
    → Elem x (merged_tasks tasks added removed updated)
      ↔ (wanted_task x.id tasks added removed updated ≡ some x)
merged_exact tasks added removed updated x =
    let m = merged_tasks tasks added removed updated in
    let found = task_at-merged x.id tasks added removed updated in
    (
      λ e. sym found ∙ Elem-task_at m x (merged-DistinctIds tasks added removed updated) e,
      λ w. (task_at-Elem m x x.id (found ∙ w)).0,
    )
