-- ===== src/Ids.antt =====
-- id/id.go: identifiers by UUIDv5 of a namespace and a text. `new_sha1` is `uuid.NewSHA1` followed by
-- String; the RFC 3339 form of a time depends on its whole seconds only.
use schedule.Base.{
  ℕ, zero, suc, ◌+◌, ◌/◌, ◌%◌, ◌^◌, ◌≡◌, ◌≢◌, refl, ap, ap₂, ◌⊎◌, inl, inr, [], ◌∷◌, ◌++◌, Text,
  codes, length, text_eq, ltb, text_eq-true, text_eq_refl, append_cancel, arith, ◌==◌,
  if◌then◌else◌, Bool-cases,
}
use schedule.Ticker.Window.{Time}

abbrev job_namespace : Text
job_namespace = codes "6ba7b810-9dad-11d1-80b4-00c04fd430c8"

abbrev pub task_namespace : Text
task_namespace = codes "6ba7b811-9dad-11d1-80b4-00c04fd430c8"

abbrev occurrence_namespace : Text
occurrence_namespace = codes "6ba7b812-9dad-11d1-80b4-00c04fd430c8"

abbrev task_run_namespace : Text
task_run_namespace = codes "6ba7b813-9dad-11d1-80b4-00c04fd430c8"

abbrev attempt_namespace : Text
attempt_namespace = codes "6ba7b814-9dad-11d1-80b4-00c04fd430c8"

pub record Formats : Type 0 where
  pub new_sha1 : Text → Text → Text
  -- the RFC 3339 text of a time in UTC, by its whole seconds
  pub rfc3339 : ℕ → Text

-- `%d`, with fuel for the digits; a number has at most as many digits as its value and one more.
digits : ℕ → ℕ → Text → Text
digits zero n acc = acc
digits (suc fuel) n acc =
    let rest = digits fuel (n / 10) ((48 + n % 10) ∷ acc) in
    if n / 10 == 0 then (48 + n % 10) ∷ acc else rest

unfoldable pub decimal : ℕ → Text
unfolding digits
decimal n = digits (suc n) n []

-- `fmt.Sprintf("%s:%s", a, b)`
unfoldable pub joined : Text → Text → Text
joined a b = a ++ (58 ∷ b)

module _ (f : Formats) where
  unfoldable pub generate_job_id : Text → Text
  generate_job_id name = codes "job_" ++ f.new_sha1 job_namespace name

  unfoldable pub generate_task_id : Text → Text → Text
  unfolding joined
  generate_task_id job_id task_name =
      codes "task_" ++ f.new_sha1 task_namespace (joined job_id task_name)

  unfoldable pub generate_job_occurrence_id : Text → Time → Text
  unfolding joined
  generate_job_occurrence_id job_id scheduled_time =
      codes "occ_"
      ++ f.new_sha1 occurrence_namespace (joined job_id (f.rfc3339 (scheduled_time / 10 ^ 9)))

  unfoldable pub generate_task_run_id : Text → Text → Text
  unfolding joined
  generate_task_run_id occurrence_id task_id =
      codes "run_" ++ f.new_sha1 task_run_namespace (joined occurrence_id task_id)

  unfoldable pub generate_execution_attempt_id : Text → ℕ → Text
  unfolding joined decimal
  generate_execution_attempt_id task_run_id attempt_number =
      codes "attempt_" ++ f.new_sha1 attempt_namespace (joined task_run_id (decimal attempt_number))

-- `hex.EncodeToString`
hex_digit : ℕ → ℕ
hex_digit n = if ltb n 10 then 48 + n else 87 + n

hex : Text → Text
unfolding hex_digit
hex [] = []
hex (c ∷ s) = hex_digit (c / 16) ∷ hex_digit (c % 16) ∷ hex s

-- HashString, with sha256 as a parameter; nothing calls it.
hash_string : (Text → Text) → Text → Text
unfolding hex
hash_string sha256 s = hex (sha256 s)

-- Two texts that the hash does not tell apart.
pub record Collision (f : Formats) (namespace a b : Text) : Type 0 where
  pub different : a ≢ b
  pub same_hash : f.new_sha1 namespace a ≡ f.new_sha1 namespace b

head-injective : (x y : ℕ) (xs ys : Text) → x ∷ xs ≡ y ∷ ys → (x ≡ y) × (xs ≡ ys)
head-injective x y xs ys h = ground arith

joined-injective :
    (a c b d : Text) → length a ≡ length c → joined a b ≡ joined c d → (a ≡ c) × (b ≡ d)
unfolding joined
joined-injective [] [] b d l h = (refl, (head-injective 58 58 b d h).1)
joined-injective [] (y ∷ c) b d l h = absurd (omega arith)
joined-injective (x ∷ a) [] b d l h = absurd (omega arith)
joined-injective (x ∷ a) (y ∷ c) b d l h =
    let (e, t) = head-injective x y _ _ h in
    let (p, q) = joined-injective a c b d (omega arith) t in (ap₂ (◌∷◌) e p, q)

same_or_Collision :
    (f : Formats) (namespace a b : Text)
    → f.new_sha1 namespace a ≡ f.new_sha1 namespace b
    → (a ≡ b) ⊎ Collision f namespace a b
same_or_Collision f namespace a b h = elim (Bool-cases (text_eq a b)) [
  | inl y ↦ inl (text_eq-true a b y)
  | inr n ↦
      inr
        (record { different = λ e. cc (n, ap (λ t. text_eq a t) e, text_eq_refl a); same_hash = h })
]

-- Two tasks of jobs whose identifiers have one length, as those of GenerateJobID have, get one
-- identifier only if they are the same task of the same job, or their hashes collide.
pub generate_task_id-injective :
    (f : Formats) (j k n m : Text)
    → length j ≡ length k
    → generate_task_id f j n ≡ generate_task_id f k m
    → ((j ≡ k) × (n ≡ m)) ⊎ Collision f task_namespace (joined j n) (joined k m)
unfolding generate_task_id
generate_task_id-injective f j k n m l h =
    elim (same_or_Collision f task_namespace (joined j n) (joined k m)
      (append_cancel (codes "task_") _ _ h)) [
        | inl e ↦ inl (joined-injective j k n m l e)
        | inr c ↦ inr c
      ]

-- All times of a job within one second have the same occurrence identifier.
pub occurrence_id_of_second :
    (f : Formats) (j : Text) (s t : Time)
    → s / 10 ^ 9 ≡ t / 10 ^ 9
    → generate_job_occurrence_id f j s ≡ generate_job_occurrence_id f j t
unfolding generate_job_occurrence_id
occurrence_id_of_second f j s t h = rw h
