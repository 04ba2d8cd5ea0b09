-- ===== src/Metrics/Counts.antt =====
-- What the collector of metrics/metrics.go counts under keys that join names by colons.
use schedule.Base.{
  ℕ, suc, ◌+◌, ◌≡◌, ◌≢◌, refl, sym, ap₂, ◌∙◌, Bool, true, false, ◌&&◌, List, [], ◌∷◌, append_assoc,
  All, Text, text_eq, text_eq-true, text_eq_refl, arith, if◌then◌else◌,
}
use schedule.Types.{TaskStatus}
use schedule.Ids.{joined}
use schedule.Metrics.{
  Metric, jobs_running, jobs_in_queue, jobs_paused, task_attempts, job_occurrences, recovery_runs,
  job_duration, task_duration,
}
use schedule.Metrics.InMemory.{
  InMemoryMetrics, task_status_text, attempts_key, increment, record_metric, record_all,
  get_task_attempts,
}

cons-injective : (x y : ℕ) (xs ys : Text) → x ∷ xs ≡ y ∷ ys → (x ≡ y) × (xs ≡ ys)
cons-injective x y xs ys h = ground arith

-- A text without a colon.
abbrev pub IsPlain : Text → Type 0
IsPlain [] = Unit
IsPlain (x ∷ xs) = (x ≢ 58) × IsPlain xs

pub joined-injective_plain :
    (a c b d : Text) → IsPlain a → IsPlain c → joined a b ≡ joined c d → (a ≡ c) × (b ≡ d)
unfolding joined
joined-injective_plain [] [] b d p q h = (refl, (cons-injective 58 58 b d h).1)
joined-injective_plain [] (y ∷ c) b d p q h = absurd (q.0 (sym (cons-injective 58 y _ _ h).0))
joined-injective_plain (x ∷ a) [] b d p q h = absurd (p.0 (cons-injective x 58 _ _ h).0)
joined-injective_plain (x ∷ a) (y ∷ c) b d p q h =
    let (e, t) = cons-injective x y _ _ h in
    let (f, g) = joined-injective_plain a c b d p.1 q.1 t in (ap₂ (◌∷◌) e f, g)

joined_assoc : (a b c : Text) → joined (joined a b) c ≡ joined a (joined b c)
unfolding joined
joined_assoc a b c = append_assoc a (58 ∷ b) (58 ∷ c)

equal_parts : (a b c : Bool) → (a && b && c) ≡ true → (a ≡ true) × (b ≡ true) × (c ≡ true)
equal_parts a b c h = ground arith

equal_keys :
    (j t s k u r : Text)
    → (text_eq j k && text_eq t u && text_eq s r) ≡ true
    → text_eq (attempts_key j t s) (attempts_key k u r) ≡ true
equal_keys j t s k u r h =
    let (a, b, c) = equal_parts (text_eq j k) (text_eq t u) (text_eq s r) h in
    rw (text_eq-true j k a, text_eq-true t u b, text_eq-true s r c)
      (text_eq_refl (attempts_key k u r))

-- Keys of names without a colon are equal only if the names are.
equal_names :
    (j t s k u r : Text)
    → IsPlain j × IsPlain t
    → IsPlain k × IsPlain u
    → text_eq (attempts_key j t s) (attempts_key k u r) ≡ true
    → (text_eq j k && text_eq t u && text_eq s r) ≡ true
unfolding attempts_key
equal_names j t s k u r (pj, pt) (pk, pu) y =
    let e = sym (joined_assoc j t s) ∙ text_eq-true _ _ y ∙ joined_assoc k u r in
    let (a, f) = joined-injective_plain j k _ _ pj pk e in
    let (b, c) = joined-injective_plain t u s r pt pu f in
    rw (a, b, c) (ground (arith, text_eq_refl k, text_eq_refl u, text_eq_refl r))

pub same_truth : (a b : Bool) → (a ≡ true → b ≡ true) → (b ≡ true → a ≡ true) → a ≡ b
same_truth a b f g = ground arith

counted :
    (b c : Bool) (n x : ℕ) → b ≡ c → (if b then suc n else n) + x ≡ n + (if c then suc x else x)
counted true c n x e = rw⁻¹ e (omega arith)
counted false c n x e = rw⁻¹ e (omega arith)

-- How many attempts of a task of a job ended with a status.
unfoldable pub count_attempts : Text → Text → TaskStatus → List Metric → ℕ
count_attempts j t s [] = 0
count_attempts j t s (task_attempts k u r ∷ xs) =
    let rest = count_attempts j t s xs in
    if text_eq k j && text_eq u t && text_eq (task_status_text r) (task_status_text s)
    then suc rest
    else rest
count_attempts j t s (_ ∷ xs) = count_attempts j t s xs

-- The names that come before a colon in a key have none of their own.
abbrev pub HasPlainNames : Metric → Type 0
HasPlainNames (task_attempts k u r) = IsPlain k × IsPlain u
HasPlainNames (job_occurrences k r) = IsPlain k
HasPlainNames (recovery_runs k r) = IsPlain k
HasPlainNames (task_duration k u d) = IsPlain k
HasPlainNames _ = Unit

-- If no name has a colon, the collector in memory counts, for each task and status, the attempts that
-- were recorded, on top of what it had.
pub get_task_attempts-record_all :
    (xs : List Metric) (m : InMemoryMetrics) (j t : Text) (s : TaskStatus)
    → IsPlain j × IsPlain t
    → All HasPlainNames xs
    → get_task_attempts (record_all xs m) j t (task_status_text s)
      ≡ get_task_attempts m j t (task_status_text s) + count_attempts j t s xs
unfolding get_task_attempts record_all record_metric increment count_attempts
get_task_attempts-record_all [] m j t s p all = omega arith
get_task_attempts-record_all (task_attempts k u r ∷ xs) m j t s p (q, all) =
    let rest =
      get_task_attempts-record_all xs (record_metric (task_attempts k u r) m) j t s p all in
    let same =
      same_truth
        (text_eq (attempts_key k u (task_status_text r)) (attempts_key j t (task_status_text s)))
        (text_eq k j && text_eq u t && text_eq (task_status_text r) (task_status_text s))
        (equal_names k u _ j t _ q p) (equal_keys k u _ j t _) in
    rest
    ∙ counted _ _ (m.attempts (attempts_key j t (task_status_text s))) (count_attempts j t s xs)
        same
get_task_attempts-record_all (jobs_running n ∷ xs) m j t s p (q, all) =
    get_task_attempts-record_all xs (record_metric (jobs_running n) m) j t s p all
get_task_attempts-record_all (jobs_in_queue n ∷ xs) m j t s p (q, all) =
    get_task_attempts-record_all xs (record_metric (jobs_in_queue n) m) j t s p all
get_task_attempts-record_all (jobs_paused n ∷ xs) m j t s p (q, all) =
    get_task_attempts-record_all xs (record_metric (jobs_paused n) m) j t s p all
get_task_attempts-record_all (job_occurrences k r ∷ xs) m j t s p (q, all) =
    get_task_attempts-record_all xs (record_metric (job_occurrences k r) m) j t s p all
get_task_attempts-record_all (recovery_runs k r ∷ xs) m j t s p (q, all) =
    get_task_attempts-record_all xs (record_metric (recovery_runs k r) m) j t s p all
get_task_attempts-record_all (job_duration k d ∷ xs) m j t s p (q, all) =
    get_task_attempts-record_all xs (record_metric (job_duration k d) m) j t s p all
get_task_attempts-record_all (task_duration k u d ∷ xs) m j t s p (q, all) =
    get_task_attempts-record_all xs (record_metric (task_duration k u d) m) j t s p all
