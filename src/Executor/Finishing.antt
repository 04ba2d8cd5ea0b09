-- ===== src/Executor/Finishing.antt =====
-- The order in which the tasks of a parallel group of executor/executor.go finish, and their reports.
use mathlib.Core.List.{Permᴰ}
use schedule.Base.{map, ap, ap₂, ◌≡◌, refl, List, [], ◌∷◌, All, subst, sym}
use schedule.Types.{TaskReport}
use schedule.Job.{Task}
use schedule.Executor.{Env}

-- One report for each task, in the order in which they finish.
abbrev pub EachOnce : List Task → List TaskReport → Type 0
EachOnce [] [] = Unit
EachOnce [] (r ∷ rs) = ⊥
EachOnce (task ∷ tasks) [] = ⊥
EachOnce (task ∷ tasks) (r ∷ rs) = (r.task_id ≡ task.id) × EachOnce tasks rs

-- The order in which the goroutines of a group finish is one of the tasks of the group.
abbrev pub Finishes : Env → Type 0
Finishes env = (tasks : List Task) → Permᴰ (env.finishing tasks) tasks

-- The reports are those of the tasks, one for each, in an order of their own.
abbrev pub Reported : List Task → List TaskReport → Type 0
Reported tasks rs = Permᴰ (map (λ (r : TaskReport). r.task_id) rs) (map (λ (t : Task). t.id) tasks)

pub All-Permᴰ : (P : Task → Type 0) {xs ys : List Task} → Permᴰ xs ys → All P ys → All P xs
All-Permᴰ P Permᴰ.nil all = tt
All-Permᴰ P (Permᴰ.cons e d) (p, all) = (subst P (sym e) p, All-Permᴰ P d all)
All-Permᴰ P (Permᴰ.swap e f) (p, (q, all)) = (subst P (sym e) q, (subst P (sym f) p, all))
All-Permᴰ P (Permᴰ.trans d e) all = All-Permᴰ P d (All-Permᴰ P e all)

pub map-Permᴰ :
    {xs ys : List Task}
    → Permᴰ xs ys
    → Permᴰ (map (λ (t : Task). t.id) xs) (map (λ (t : Task). t.id) ys)
map-Permᴰ Permᴰ.nil = Permᴰ.nil
map-Permᴰ (Permᴰ.cons e d) = Permᴰ.cons (ap (λ (t : Task). t.id) e) (map-Permᴰ d)
map-Permᴰ (Permᴰ.swap e f) = Permᴰ.swap (ap (λ (t : Task). t.id) e) (ap (λ (t : Task). t.id) f)
map-Permᴰ (Permᴰ.trans d e) = Permᴰ.trans (map-Permᴰ d) (map-Permᴰ e)

pub EachOnce-ids :
    (tasks : List Task) (rs : List TaskReport)
    → EachOnce tasks rs
    → map (λ (r : TaskReport). r.task_id) rs ≡ map (λ (t : Task). t.id) tasks
EachOnce-ids [] [] h = refl
EachOnce-ids [] (r ∷ rs) h = absurd h
EachOnce-ids (t ∷ ts) [] h = absurd h
EachOnce-ids (t ∷ ts) (r ∷ rs) (e, h) = ap₂ (◌∷◌) e (EachOnce-ids ts rs h)
