-- ===== src/Scheduler/Tasks.antt =====
-- The tasks of a job after UpdateJob of scheduler/scheduler.go: a map by identifiers is filled, cut and
-- changed, and listed in any order.
pub mod Merged
use schedule.Base.{
  ℕ, ◌≡◌, refl, sym, ap, ◌∙◌, ◌↔◌, ◌⊎◌, inl, inr, Bool, true, false, not, ◌||◌, Bool-cases, Option,
  none, some, Option-cases, some-injective, List, [], ◌∷◌, ◌++◌, Text, text_eq, text_eq-true,
  text_eq_refl, Elem, All, arith, if◌then◌else◌,
}
use schedule.Job.{Task}

-- `taskMap[id]`
unfoldable pub task_at : Text → List Task → Option Task
task_at id [] = none
task_at id (t ∷ ts) = if text_eq t.id id then some t else task_at id ts

-- `taskMap[task.ID] = task`
unfoldable pub put_task : Task → List Task → List Task
put_task t [] = t ∷ []
put_task t (x ∷ xs) = if text_eq x.id t.id then t ∷ xs else x ∷ put_task t xs

unfoldable pub put_tasks : List Task → List Task → List Task
put_tasks [] m = m
put_tasks (t ∷ ts) m = put_tasks ts (put_task t m)

-- `delete(taskMap, taskID)`
unfoldable pub drop_task : Text → List Task → List Task
drop_task id [] = []
drop_task id (x ∷ xs) = if text_eq x.id id then drop_task id xs else x ∷ drop_task id xs

unfoldable pub drop_tasks : List Text → List Task → List Task
drop_tasks [] m = m
drop_tasks (id ∷ ids) m = drop_tasks ids (drop_task id m)

-- A task keeps its identifier and its function.
unfoldable pub changed : Task → Task → Task
changed by t = record t { name = by.name; config = by.config; order = by.order }

unfoldable pub change_task : Task → List Task → List Task
change_task by [] = []
change_task by (x ∷ xs) = if text_eq x.id by.id then changed by x ∷ xs else x ∷ change_task by xs

unfoldable pub change_tasks : List Task → List Task → List Task
change_tasks [] m = m
change_tasks (by ∷ us) m = change_tasks us (change_task by m)

-- The map, before it is listed.
unfoldable pub merged_tasks : List Task → List Task → List Text → List Task → List Task
merged_tasks tasks added removed updated =
    change_tasks updated (drop_tasks removed (put_tasks added (put_tasks tasks [])))

-- What the map is for: of each identifier the last task with it, old or new, if it is not
-- removed, with what the last update of it says.
unfoldable pub last_with : Text → List Task → Option Task
last_with id [] = none
last_with id (t ∷ ts) = elim (last_with id ts) [
  | some x ↦ some x
  | none ↦ if text_eq t.id id then some t else none
]

unfoldable pub is_among : Text → List Text → Bool
is_among id [] = false
is_among id (x ∷ xs) = text_eq x id || is_among id xs

unfoldable pub or_else : Option Task → Option Task → Option Task
or_else (some x) y = some x
or_else none y = y

unfoldable pub apply_change : Option Task → Option Task → Option Task
unfolding changed
apply_change none x = x
apply_change (some by) none = none
apply_change (some by) (some x) = some (changed by x)

unfoldable pub wanted_task : Text → List Task → List Task → List Text → List Task → Option Task
unfolding apply_change or_else
wanted_task id tasks added removed updated =
    if is_among id removed
    then none
    else apply_change (last_with id updated) (or_else (last_with id added) (last_with id tasks))
