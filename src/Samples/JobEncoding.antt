-- ===== src/Samples/JobEncoding.antt =====
-- The encoding with stored jobs as well.
use schedule.Base.{◌≡◌, refl, sym, ap, ◌∙◌, some-injective, some, [], ◌∷◌, Text}
use schedule.Storage.{Job}
use schedule.Badger.Database.{Codec, IsFaithful}
use schedule.Badger.Operations.{Json}
use schedule.Samples.Encoding.{
  Parser, ◌>>=◌, step, pure, put_text, text, text-put, number, put_bool, bool, bool-put, put_option,
  option, option-put, whole, push, sample_json,
}

put_job : Job → Text
put_job j = put_text j.id (
    put_text j.name (
      put_text j.schedule_type (
        put_text j.schedule_config (
          put_text j.config (
            j.version
            ∷ put_bool j.active (
                put_bool j.paused
                  (put_option j.last_run_time (j.created_at ∷ j.updated_at ∷ []))))))))

job : Parser Job
job = do
  id ← text
  name ← text
  schedule_type ← text
  schedule_config ← text
  config ← text
  version ← number
  active ← bool
  paused ← bool
  last_run_time ← option
  created_at ← number
  updated_at ← number
  pure (record {
    id = id;
    name = name;
    schedule_type = schedule_type;
    schedule_config = schedule_config;
    config = config;
    version = version;
    active = active;
    paused = paused;
    last_run_time = last_run_time;
    created_at = created_at;
    updated_at = updated_at;
  })

job-put : (j : Job) → job (put_job j) ≡ some (j, [])
unfolding job put_job number
job-put j = step _ _ (text-put j.id _) (
    step _ _ (text-put j.name _) (
      step _ _ (text-put j.schedule_type _) (
        step _ _ (text-put j.schedule_config _) (
          step _ _ (text-put j.config _) (
            step _ _ refl (
              step _ _ (bool-put j.active _) (
                step _ _ (bool-put j.paused _) (
                  step _ _ (option-put j.last_run_time _)
                    (step _ _ refl (step _ _ refl refl))))))))))

unfoldable pub job_codec : Codec Job
unfolding ◌>>=◌ job put_job whole number text option bool put_text put_option put_bool push
job_codec = record { marshal = λ j. some (put_job j); unmarshal = λ t. whole (job t) }

unfoldable pub job_json : Json
unfolding job_codec
job_json = record sample_json { job = job_codec }

pub job_json-faithful : IsFaithful job_json.job
unfolding job_json job_codec
job_json-faithful j d h =
    ap (λ t. whole (job t)) (sym (some-injective _ _ h)) ∙ ap whole (job-put j)
