-- ===== src/Metrics/Steps.antt =====
-- What each call of the collector of metrics/metrics.go changes of what is read from it.
use schedule.Base.{
  ℕ, suc, ◌+◌, ◌≡◌, refl, sym, ap, ◌∙◌, Bool, true, false, ◌&&◌, Option, none, some, List, [], ◌∷◌,
  ◌++◌, append_assoc, append-nil, add-zero, All, Text, text_eq, text_eq-true, text_eq_refl, arith,
  if◌then◌else◌,
}
use schedule.Types.{JobStatus}
use schedule.Ids.{joined}
use schedule.Metrics.{
  Metric, jobs_running, jobs_in_queue, jobs_paused, job_occurrences, recovery_runs, job_duration,
  task_duration,
}
use schedule.Metrics.InMemory.{
  InMemoryMetrics, job_status_text, increment, append_at, record_metric, record_all,
  get_jobs_running, get_jobs_in_queue, get_jobs_paused, get_job_occurrences, get_recovery_runs,
  get_job_durations, get_task_durations,
}
use schedule.Metrics.Counts.{IsPlain, HasPlainNames, joined-injective_plain, same_truth}

-- What one call adds to a counter, to a list of durations, and what it sets a gauge to.
unfoldable pub occurrence_of : Text → JobStatus → Metric → ℕ
occurrence_of j s (job_occurrences k r) =
    if text_eq k j && text_eq (job_status_text r) (job_status_text s) then 1 else 0
occurrence_of j s _ = 0

unfoldable pub recovery_of : Text → Text → Metric → ℕ
recovery_of j s (recovery_runs k r) = if text_eq k j && text_eq r s then 1 else 0
recovery_of j s _ = 0

unfoldable pub job_time : Text → Metric → List ℕ
job_time j (job_duration k d) = if text_eq k j then d ∷ [] else []
job_time j _ = []

unfoldable pub task_time : Text → Text → Metric → List ℕ
task_time j t (task_duration k u d) = if text_eq k j && text_eq u t then d ∷ [] else []
task_time j t _ = []

unfoldable pub running_set : Metric → Option ℕ
running_set (jobs_running n) = some n
running_set _ = none

unfoldable pub queue_set : Metric → Option ℕ
queue_set (jobs_in_queue n) = some n
queue_set _ = none

unfoldable pub paused_set : Metric → Option ℕ
paused_set (jobs_paused n) = some n
paused_set _ = none

-- All calls together: a counter adds up, a list is gathered in order, and of a gauge the last counts.
unfoldable pub total : (Metric → ℕ) → List Metric → ℕ
total f [] = 0
total f (x ∷ xs) = f x + total f xs

unfoldable pub gathered : (Metric → List ℕ) → List Metric → List ℕ
gathered f [] = []
gathered f (x ∷ xs) = f x ++ gathered f xs

unfoldable pub or_else : Option ℕ → ℕ → ℕ
or_else none n = n
or_else (some m) n = m

unfoldable pub last_set : (Metric → Option ℕ) → ℕ → List Metric → ℕ
last_set f n [] = n
last_set f n (x ∷ xs) = last_set f (or_else (f x) n) xs

-- A reading that each call changes by what it adds is changed by all calls together.
module _ (P : Metric → Type 0) where
  pub read_total :
      (read : InMemoryMetrics → ℕ) (f : Metric → ℕ)
      → ((x : Metric) (m : InMemoryMetrics) → P x → read (record_metric x m) ≡ read m + f x)
      → (xs : List Metric) (m : InMemoryMetrics) → All P xs
      → read (record_all xs m) ≡ read m + total f xs
  unfolding record_all total
  read_total read f step [] m all = omega arith
  read_total read f step (x ∷ xs) m (p, all) =
      let rest = read_total read f step xs (record_metric x m) all in
      let now = step x m p in omega arith

  pub read_gathered :
      (read : InMemoryMetrics → List ℕ) (f : Metric → List ℕ)
      → ((x : Metric) (m : InMemoryMetrics) → P x → read (record_metric x m) ≡ read m ++ f x)
      → (xs : List Metric) (m : InMemoryMetrics) → All P xs
      → read (record_all xs m) ≡ read m ++ gathered f xs
  unfolding record_all gathered
  read_gathered read f step [] m all = sym (append-nil (read m))
  read_gathered read f step (x ∷ xs) m (p, all) =
      read_gathered read f step xs (record_metric x m) all
      ∙ ap (λ l. l ++ gathered f xs) (step x m p)
      ∙ append_assoc (read m) (f x) (gathered f xs)

pub read_last :
    (read : InMemoryMetrics → ℕ) (f : Metric → Option ℕ)
    → ((x : Metric) (m : InMemoryMetrics) → read (record_metric x m) ≡ or_else (f x) (read m))
    → (xs : List Metric) (m : InMemoryMetrics) → read (record_all xs m) ≡ last_set f (read m) xs
unfolding record_all last_set
read_last read f step [] m = refl
read_last read f step (x ∷ xs) m =
    read_last read f step xs (record_metric x m) ∙ ap (λ n. last_set f n xs) (step x m)

both : (a b : Bool) → (a && b) ≡ true → (a ≡ true) × (b ≡ true)
both a b h = ground arith

-- Keys of a name without a colon are equal if and only if the names are.
same_keys :
    (j s k r : Text)
    → IsPlain j
    → IsPlain k
    → text_eq (joined k r) (joined j s) ≡ (text_eq k j && text_eq r s)
same_keys j s k r p q =
    same_truth _ _
      (λ h.
        let (a, b) = joined-injective_plain k j r s q p (text_eq-true _ _ h) in
        rw (a, b) (ground (arith, text_eq_refl j, text_eq_refl s)))
      (λ h.
        let (a, b) = both (text_eq k j) (text_eq r s) h in
        rw (text_eq-true k j a, text_eq-true r s b) (text_eq_refl (joined j s)))

incremented : (b c : Bool) (n : ℕ) → b ≡ c → (if b then suc n else n) ≡ n + (if c then 1 else 0)
incremented b c n e = ground arith

appended :
    (b c : Bool) (l : List ℕ) (d : ℕ)
    → b ≡ c
    → (if b then l ++ d ∷ [] else l) ≡ l ++ (if c then d ∷ [] else [])
appended true c l d e = rw⁻¹ e refl
appended false c l d e = rw⁻¹ e (sym (append-nil l))

-- What one call changes of each reading.
pub occurrence_step :
    (j : Text) (s : JobStatus)
    → IsPlain j
    → (x : Metric) (m : InMemoryMetrics) → HasPlainNames x
    → get_job_occurrences (record_metric x m) j (job_status_text s)
      ≡ get_job_occurrences m j (job_status_text s) + occurrence_of j s x
unfolding get_job_occurrences record_metric increment occurrence_of
occurrence_step j s p (job_occurrences k r) m q =
    incremented _ _ (m.occurrences (joined j (job_status_text s))) (same_keys j _ k _ p q)
occurrence_step j s p _ m q = sym (add-zero (m.occurrences (joined j (job_status_text s))))

pub recovery_step :
    (j s : Text)
    → IsPlain j
    → (x : Metric) (m : InMemoryMetrics) → HasPlainNames x
    → get_recovery_runs (record_metric x m) j s ≡ get_recovery_runs m j s + recovery_of j s x
unfolding get_recovery_runs record_metric increment recovery_of
recovery_step j s p (recovery_runs k r) m q =
    incremented _ _ (m.recoveries (joined j s)) (same_keys j _ k _ p q)
recovery_step j s p _ m q = sym (add-zero (m.recoveries (joined j s)))

pub job_time_step :
    (j : Text) (x : Metric) (m : InMemoryMetrics)
    → HasPlainNames x
    → get_job_durations (record_metric x m) j ≡ get_job_durations m j ++ job_time j x
unfolding get_job_durations record_metric append_at job_time
job_time_step j (job_duration k d) m q =
    appended (text_eq k j) (text_eq k j) (m.job_durations j) d refl
job_time_step j _ m q = sym (append-nil (m.job_durations j))

pub task_time_step :
    (j t : Text)
    → IsPlain j
    → (x : Metric) (m : InMemoryMetrics) → HasPlainNames x
    → get_task_durations (record_metric x m) j t ≡ get_task_durations m j t ++ task_time j t x
unfolding get_task_durations record_metric append_at task_time
task_time_step j t p (task_duration k u d) m q =
    appended _ _ (m.task_durations (joined j t)) d (same_keys j t k u p q)
task_time_step j t p _ m q = sym (append-nil (m.task_durations (joined j t)))

pub running_step :
    (x : Metric) (m : InMemoryMetrics)
    → get_jobs_running (record_metric x m) ≡ or_else (running_set x) (get_jobs_running m)
unfolding get_jobs_running record_metric running_set or_else
running_step (jobs_running n) m = refl
running_step _ m = refl

pub queue_step :
    (x : Metric) (m : InMemoryMetrics)
    → get_jobs_in_queue (record_metric x m) ≡ or_else (queue_set x) (get_jobs_in_queue m)
unfolding get_jobs_in_queue record_metric queue_set or_else
queue_step (jobs_in_queue n) m = refl
queue_step _ m = refl

pub paused_step :
    (x : Metric) (m : InMemoryMetrics)
    → get_jobs_paused (record_metric x m) ≡ or_else (paused_set x) (get_jobs_paused m)
unfolding get_jobs_paused record_metric paused_set or_else
paused_step (jobs_paused n) m = refl
paused_step _ m = refl
