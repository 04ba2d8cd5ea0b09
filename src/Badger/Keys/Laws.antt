-- ===== src/Badger/Keys/Laws.antt =====
-- Which keys of storage/badger/badger.go the iterators and the tests on keys find.
use schedule.Base.{
  suc, ◌≡◌, ◌∙◌, refl, ap, subst, true, [], ◌∷◌, ◌++◌, append_assoc, Text, codes, has_prefix,
  contains, has_suffix, length, length-append, drop, drop-append, text_eq, text_eq_refl, ◌-◌,
  count_byte, has_prefix-append, arith,
}
use schedule.Badger.Keys.{job_key, task_key, occurrence_key, occurrence_prefix}

pub occurrence_key-prefix :
    (j o : Text) → has_prefix (occurrence_key j o) (occurrence_prefix j) ≡ true
unfolding occurrence_key occurrence_prefix
occurrence_key-prefix j o =
    subst (λ s. has_prefix s (codes "job/" ++ (j ++ codes "/occurrence/")) ≡ true)
      (append_assoc (codes "job/") (j ++ codes "/occurrence/") o
        ∙ ap (λ s. codes "job/" ++ s) (append_assoc j (codes "/occurrence/") o))
      (has_prefix-append (codes "job/" ++ (j ++ codes "/occurrence/")) o)

pub occurrence_key-job : (j o : Text) → has_prefix (occurrence_key j o) (codes "job/") ≡ true
unfolding occurrence_key
occurrence_key-job j o = has_prefix-append (codes "job/") _

pub job_key-job : (j : Text) → has_prefix (job_key j) (codes "job/") ≡ true
unfolding job_key
job_key-job j = has_prefix-append (codes "job/") j

contains-prefix : (t s : Text) → contains (t ++ s) t ≡ true
unfolding contains has_prefix
contains-prefix [] [] = refl
contains-prefix [] (c ∷ s) = refl
contains-prefix (c ∷ t) s = ground (arith, has_prefix-append t s)

contains-append : (r t s : Text) → contains (r ++ (t ++ s)) t ≡ true
unfolding contains
contains-append [] t s = contains-prefix t s
contains-append (c ∷ r) t s = ground (arith, contains-append r t s)

pub occurrence_key-contains :
    (j o : Text) → contains (occurrence_key j o) (codes "/occurrence/") ≡ true
unfolding occurrence_key
occurrence_key-contains j o =
    subst (λ s. contains s (codes "/occurrence/") ≡ true)
      (append_assoc (codes "job/") j (codes "/occurrence/" ++ o))
      (contains-append (codes "job/" ++ j) (codes "/occurrence/") o)

-- A job's key has a slash more than its identifier.
pub count_byte-job_key : (j : Text) → count_byte b'/' (job_key j) ≡ suc (count_byte b'/' j)
unfolding count_byte job_key
count_byte-job_key j = refl

pub task_key-job : (j t : Text) → has_prefix (task_key j t) (codes "job/") ≡ true
unfolding task_key
task_key-job j t = has_prefix-append (codes "job/") _

pub task_key-contains : (j t : Text) → contains (task_key j t) (codes "/task/") ≡ true
unfolding task_key
task_key-contains j t =
    subst (λ s. contains s (codes "/task/") ≡ true)
      (append_assoc (codes "job/") j (codes "/task/" ++ t))
      (contains-append (codes "job/" ++ j) (codes "/task/") t)

has_suffix-append : (p s : Text) → has_suffix (p ++ s) s ≡ true
unfolding has_suffix
has_suffix-append p s =
    let long = length-append p s in
    let cut : drop (length (p ++ s) - length s) (p ++ s) ≡ s =
      ap (λ n. drop n (p ++ s)) (omega (arith, long)) ∙ drop-append p s in
    ground (arith, long, ap (λ r. text_eq r s) cut, text_eq_refl s)

pub task_key-suffix : (j t : Text) → has_suffix (task_key j t) t ≡ true
unfolding task_key
task_key-suffix j t =
    subst (λ k. has_suffix k t ≡ true)
      (append_assoc (codes "job/" ++ j) (codes "/task/") t
        ∙ append_assoc (codes "job/") j (codes "/task/" ++ t))
      (has_suffix-append ((codes "job/" ++ j) ++ codes "/task/") t)
