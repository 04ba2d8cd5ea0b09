-- ===== src/Job.antt =====
-- job.go: jobs, their tasks and the configuration that a task runs with. Functions of the user (a
-- task's Fn and a job's hooks) are handles, which the executor's environment gives a meaning.
use schedule.Base.{
  ℕ, suc, ◌+◌, ◌≡◌, refl, ◌↔◌, inl, inr, Bool, true, false, ◌&&◌, ◌||◌, Option, none, some, List,
  [], ◌∷◌, ◌++◌, Text, text_eq, text_eq-true, text_eq_refl, Result, ok, err, map_ok, ok-injective,
  ap, Error, length, length-append, Elem, arith, Bool-cases,
}
use schedule.Types.{JobConfig, TaskConfig, JobOccurrence, is_running}
use schedule.Ticker.Any.{Ticker}
use schedule.Ids.{Formats, generate_job_id, generate_task_id}

pub record Task : Type 0 where
  pub id : Text
  pub name : Text
  pub config : TaskConfig
  pub order : ℕ
  pub fn : ℕ

pub record Job : Type 0 where
  pub id : Text
  pub name : Text
  pub config : JobConfig
  pub ticker : Ticker
  pub tasks : List Task
  pub version : ℕ
  pub active : Bool
  pub paused : Bool
  pub on_start : Option ℕ
  pub on_complete : Option ℕ

unfoldable pub new_job : Formats → Text → Ticker → JobConfig → Job
new_job f name tick config = record {
  id = generate_job_id f name;
  name = name;
  config = config;
  ticker = tick;
  tasks = [];
  version = 1;
  active = true;
  paused = false;
  on_start = none;
  on_complete = none;
}

unfoldable pub add_task : Formats → Job → Text → ℕ → TaskConfig → Job
add_task f j name fn config =
    let task : Task = record {
      id = generate_task_id f j.id name;
      name = name;
      config = config;
      order = length j.tasks;
      fn = fn;
    } in
    record j { tasks = j.tasks ++ task ∷ [] }

-- `if own != nil { effective = own }`
abbrev override : {A : Type 0} → Option A → Option A → Option A
override (some own) inherited = some own
override none inherited = inherited

unfoldable pub get_effective_config : Job → Task → TaskConfig
get_effective_config j task = record {
  failure_strategy = override task.config.failure_strategy j.config.task_config.failure_strategy;
  retry_policy = override task.config.retry_policy j.config.task_config.retry_policy;
  task_timeout = override task.config.task_timeout j.config.task_config.task_timeout;
}

-- The loop of IsRunning over the listed occurrences.
unfoldable pub runs_one_of : Text → List JobOccurrence → Bool
runs_one_of id [] = false
runs_one_of id (o ∷ os) = text_eq o.job_id id && is_running o.status || runs_one_of id os

unfoldable pub is_running_in : Job → Result (List JobOccurrence) → Result Bool
unfolding runs_one_of
is_running_in j listed = map_ok (runs_one_of j.id) listed

-- The order numbers of a job's tasks are their positions.
abbrev pub Numbered : ℕ → List Task → Type 0
Numbered n [] = Unit
Numbered n (t ∷ ts) = (t.order ≡ n) × Numbered (suc n) ts

Numbered-append :
    (n : ℕ) (ts : List Task) (t : Task)
    → Numbered n ts
    → t.order ≡ n + length ts
    → Numbered n (ts ++ t ∷ [])
Numbered-append n [] t h e = (omega arith, tt)
Numbered-append n (x ∷ xs) t h e = (h.0, Numbered-append (suc n) xs t h.1 (omega arith))

-- Adding a task to a job whose tasks' order numbers are their positions keeps that, adds one task and
-- changes nothing else of the job.
pub add_task-Numbered :
    (f : Formats) (j : Job) (name : Text) (fn : ℕ) (config : TaskConfig)
    → Numbered 0 j.tasks
    → Numbered 0 (add_task f j name fn config).tasks
      × (length (add_task f j name fn config).tasks ≡ length j.tasks + 1)
      × (record (add_task f j name fn config) { tasks = j.tasks } ≡ j)
unfolding add_task
add_task-Numbered f j name fn config h =
    (Numbered-append 0 j.tasks _ h (omega arith), omega (arith, length-append j.tasks _), refl)

-- A running occurrence of the job among those listed.
abbrev pub RunsAmong : Text → List JobOccurrence → Type 0
RunsAmong id os = (o : JobOccurrence) × Elem o os × (o.job_id ≡ id) × (is_running o.status ≡ true)

runs_one_of_sound :
    (id : Text) (os : List JobOccurrence) → runs_one_of id os ≡ true → RunsAmong id os
unfolding runs_one_of
runs_one_of_sound id [] h = absurd (cc)
runs_one_of_sound id (o ∷ os) h = elim (Bool-cases (text_eq o.job_id id && is_running o.status)) [
  | inl y ↦ (o, inl refl, text_eq-true o.job_id id (ground arith), ground arith)
  | inr n ↦ let (p, m, e, r) = runs_one_of_sound id os (rw n at h) in (p, inr m, e, r)
]

runs_one_of_complete :
    (id : Text) (os : List JobOccurrence) (o : JobOccurrence)
    → Elem o os
    → o.job_id ≡ id
    → is_running o.status ≡ true
    → runs_one_of id os ≡ true
unfolding runs_one_of
runs_one_of_complete id [] o m e r = absurd m
runs_one_of_complete id (p ∷ os) o (inl m) e r = ground (
  arith,
  ap (λ (o : JobOccurrence). is_running o.status) m,
  ap (λ (o : JobOccurrence). text_eq o.job_id id) m,
  ap (λ i. text_eq i id) e,
  text_eq_refl id,
)
runs_one_of_complete id (p ∷ os) o (inr m) e r = ground (arith, runs_one_of_complete id os o m e r)

-- IsRunning fails if the list of occurrences does, and says otherwise whether a running occurrence
-- of the job is listed.
pub is_running_in_exact :
    (j : Job) (e : Error) (os : List JobOccurrence)
    → (is_running_in j (err e) ≡ err e) × ((is_running_in j (ok os) ≡ ok true) ↔ RunsAmong j.id os)
unfolding is_running_in
is_running_in_exact j e os = (
  refl,
  (
    λ r. runs_one_of_sound j.id os (ok-injective r),
    λ (o, m, i, r). ap ok (runs_one_of_complete j.id os o m i r),
  ),
)
