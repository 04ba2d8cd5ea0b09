-- ===== src/Samples/TaskEncoding.antt =====
-- The encoding with stored tasks as well.
use schedule.Base.{◌≡◌, refl, sym, ap, ◌∙◌, some-injective, some, [], ◌∷◌, Text}
use schedule.Storage.{Task}
use schedule.Badger.Database.{Codec, IsFaithful}
use schedule.Badger.Operations.{Json}
use schedule.Samples.Encoding.{
  Parser, ◌>>=◌, step, pure, put_text, text, text-put, number, whole, push, sample_json,
}

encode_task : Task → Text
encode_task t = put_text t.id (
    put_text t.job_id
      (put_text t.name (put_text t.config (t.order ∷ t.created_at ∷ t.updated_at ∷ []))))

task : Parser Task
task = do
  id ← text
  job_id ← text
  name ← text
  config ← text
  order ← number
  created_at ← number
  updated_at ← number
  pure (record {
    id = id;
    job_id = job_id;
    name = name;
    config = config;
    order = order;
    created_at = created_at;
    updated_at = updated_at;
  })

task-encode_task : (t : Task) → task (encode_task t) ≡ some (t, [])
unfolding task encode_task number
task-encode_task t = step _ _ (text-put t.id _) (
    step _ _ (text-put t.job_id _) (
      step _ _ (text-put t.name _)
        (step _ _ (text-put t.config _) (step _ _ refl (step _ _ refl (step _ _ refl refl))))))

task_codec : Codec Task
unfolding ◌>>=◌ task encode_task whole number text put_text push
task_codec = record { marshal = λ t. some (encode_task t); unmarshal = λ s. whole (task s) }

unfoldable pub task_json : Json
unfolding task_codec
task_json = record sample_json { task = task_codec }

pub task_json-faithful : IsFaithful task_json.task
unfolding task_json task_codec
task_json-faithful t d h =
    ap (λ s. whole (task s)) (sym (some-injective _ _ h)) ∙ ap whole (task-encode_task t)
