-- ===== src/Samples/Encoding.antt =====
-- An encoding of the stored records that decodes to itself, in place of JSON. A number is one
-- element of the text, and a text is ended by 0.
use schedule.Base.{
  ℕ, zero, suc, ◌≡◌, refl, sym, ap, ◌∙◌, some-injective, Bool, true, false, Option, none, some, [],
  ◌∷◌, Text, arith,
}
use schedule.Types.{JobStatus, failed_stale, queued}
use schedule.Storage.{JobOccurrence}
use schedule.Badger.Database.{Codec, IsFaithful}
use schedule.Badger.Operations.{Json}

abbrev pub Parser : Type 0 → Type 0
Parser A = Text → Option (A × Text)

infixl 5 ◌>>=◌
unfoldable pub ◌>>=◌ : {A B : Type 0} → Parser A → (A → Parser B) → Parser B
◌>>=◌ m f s = elim (m s) [ none ↦ none | some (a, r) ↦ f a r ]

pub step :
    {A B : Type 0} (m : Parser A) (f : A → Parser B) {s r : Text} {a : A} {z : Option (B × Text)}
    → m s ≡ some (a, r)
    → f a r ≡ z
    → (m >>= f) s ≡ z
unfolding ◌>>=◌
step m f h k = ground arith

abbrev pub pure : {A : Type 0} → A → Parser A
pure a s = some (a, s)

unfoldable pub put_text : Text → Text → Text
put_text [] r = 0 ∷ r
put_text (c ∷ t) r = 1 ∷ c ∷ put_text t r

unfoldable pub push : ℕ → Option (Text × Text) → Option (Text × Text)
push c none = none
push c (some (t, r)) = some (c ∷ t, r)

unfoldable pub text : Parser Text
unfolding push
text [] = none
text (zero ∷ r) = some ([], r)
text (suc n ∷ []) = none
text (suc n ∷ c ∷ r) = push c (text r)

pub text-put : (t r : Text) → text (put_text t r) ≡ some (t, r)
unfolding text put_text
text-put [] r = refl
text-put (c ∷ t) r = rw (text-put t r)

unfoldable pub number : Parser ℕ
number [] = none
number (n ∷ r) = some (n, r)

unfoldable pub put_bool : Bool → Text → Text
put_bool false r = 0 ∷ r
put_bool true r = 1 ∷ r

unfoldable pub bool : Parser Bool
bool [] = none
bool (zero ∷ r) = some (false, r)
bool (suc n ∷ r) = some (true, r)

pub bool-put : (b : Bool) (r : Text) → bool (put_bool b r) ≡ some (b, r)
unfolding bool put_bool
bool-put false r = refl
bool-put true r = refl

unfoldable pub put_option : Option ℕ → Text → Text
put_option none r = 0 ∷ r
put_option (some n) r = 1 ∷ n ∷ r

unfoldable pub option : Parser (Option ℕ)
option [] = none
option (zero ∷ r) = some (none, r)
option (suc n ∷ []) = none
option (suc n ∷ m ∷ r) = some (some m, r)

pub option-put : (o : Option ℕ) (r : Text) → option (put_option o r) ≡ some (o, r)
unfolding option put_option
option-put none r = refl
option-put (some n) r = refl

status_code : JobStatus → ℕ
status_code JobStatus.pending = 0
status_code JobStatus.running = 1
status_code JobStatus.completed = 2
status_code JobStatus.failed = 3
status_code JobStatus.canceled = 4
status_code failed_stale = 5
status_code queued = 6

status : ℕ → JobStatus
status zero = JobStatus.pending
status (suc zero) = JobStatus.running
status (suc (suc zero)) = JobStatus.completed
status (suc (suc (suc zero))) = JobStatus.failed
status (suc (suc (suc (suc zero)))) = JobStatus.canceled
status (suc (suc (suc (suc (suc zero))))) = failed_stale
status (suc (suc (suc (suc (suc (suc n)))))) = queued

status-code : (s : JobStatus) → status (status_code s) ≡ s
unfolding status status_code
status-code JobStatus.pending = refl
status-code JobStatus.running = refl
status-code JobStatus.completed = refl
status-code JobStatus.failed = refl
status-code JobStatus.canceled = refl
status-code failed_stale = refl
status-code queued = refl

put_occurrence : JobOccurrence → Text
put_occurrence o = put_text o.id (
    put_text o.job_id (
      o.job_version
      ∷ o.scheduled_time
      ∷ status_code o.status
      ∷ put_text o.owning_node_id (
          put_option o.start_time (
            put_option o.end_time (
              put_text o.config (put_bool o.is_recovery_run (o.created_at ∷ o.updated_at ∷ [])))))))

occurrence : Parser JobOccurrence
occurrence = do
  id ← text
  job_id ← text
  job_version ← number
  scheduled_time ← number
  code ← number
  owning_node_id ← text
  start_time ← option
  end_time ← option
  config ← text
  is_recovery_run ← bool
  created_at ← number
  updated_at ← number
  pure (record {
    id = id;
    job_id = job_id;
    job_version = job_version;
    scheduled_time = scheduled_time;
    status = status code;
    owning_node_id = owning_node_id;
    start_time = start_time;
    end_time = end_time;
    config = config;
    is_recovery_run = is_recovery_run;
    created_at = created_at;
    updated_at = updated_at;
  })

occurrence-put : (o : JobOccurrence) → occurrence (put_occurrence o) ≡ some (o, [])
unfolding occurrence put_occurrence number
occurrence-put o = step _ _ (text-put o.id _) (
    step _ _ (text-put o.job_id _) (
      step _ _ refl (
        step _ _ refl (
          step _ _ refl (
            step _ _ (text-put o.owning_node_id _) (
              step _ _ (option-put o.start_time _) (
                step _ _ (option-put o.end_time _) (
                  step _ _ (text-put o.config _) (
                    step _ _ (bool-put o.is_recovery_run _)
                      (step _ _ refl (step _ _ refl (rw (status-code o.status)))))))))))))

unfoldable pub whole : {A : Type 0} → Option (A × Text) → Option A
whole none = none
whole (some (a, r)) = some a

unfoldable pub occurrence_codec : Codec JobOccurrence
unfolding ◌>>=◌ occurrence put_occurrence whole number text option bool put_text put_option put_bool
    push status status_code
occurrence_codec = record {
  marshal = λ o. some (put_occurrence o);
  unmarshal = λ t. whole (occurrence t);
}

pub occurrence_codec-faithful : IsFaithful occurrence_codec
unfolding occurrence_codec
occurrence_codec-faithful o d h =
    ap (λ t. whole (occurrence t)) (sym (some-injective _ _ h)) ∙ ap whole (occurrence-put o)

refusing : {A : Type 0} → Codec A
refusing = record { marshal = λ a. none; unmarshal = λ t. none }

-- JSON at the occurrences alone.
unfoldable pub sample_json : Json
unfolding refusing occurrence_codec
sample_json = record {
  job = refusing;
  task = refusing;
  occurrence = occurrence_codec;
  run = refusing;
  attempt = refusing;
}

pub sample_json-faithful : IsFaithful sample_json.occurrence
unfolding sample_json
sample_json-faithful = occurrence_codec-faithful
