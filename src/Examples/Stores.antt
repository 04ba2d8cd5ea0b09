-- ===== src/Examples/Stores.antt =====
-- The operations of storage/badger/badger.go over a database in memory.
use schedule.Base.{
  ◌≡◌, refl, ◌⊎◌, ◌↔◌, true, false, none, some, [], ◌∷◌, ok, err, after, already_exists, not_found,
  Elem, text_eq, has_prefix, contains,
}
use schedule.Types.{JobStatus, is_pending, is_running}
use schedule.Storage.{JobOccurrence}
use schedule.Badger.Keys.{occurrence_key, occurrence_prefix}
use schedule.Badger.Records.{create_record, update_record, list_records}
use schedule.Badger.Operations.{
  create_job_occurrence, update_job_occurrence, list_pending_occurrences, list_running_occurrences,
}
use schedule.Badger.Occurrences.{
  create_wins_once, list_pending-create, list_running-update, RunsElsewhere,
}
use schedule.Samples.Memory.{memory, memory-laws, empty_memory}
use schedule.Samples.Encoding.{sample_json, sample_json-faithful}

abbrev pub waiting : JobOccurrence
waiting = record {
  id = 7 ∷ [];
  job_id = 3 ∷ [];
  job_version = 1;
  scheduled_time = 100;
  status = JobStatus.pending;
  owning_node_id = [];
  start_time = none;
  end_time = none;
  config = [];
  is_recovery_run = false;
  created_at = 90;
  updated_at = 90;
}

abbrev started : JobOccurrence
started = record waiting { status = JobStatus.running; start_time = some 101 }

-- The database after the create, and after the update.
unfoldable pub stored : memory.Db
stored = after empty_memory (create_job_occurrence memory sample_json waiting empty_memory)

created : create_job_occurrence memory sample_json waiting empty_memory ≡ ok stored
unfolding stored memory empty_memory create_job_occurrence create_record sample_json occurrence_key
created = refl

updated : memory.Db
updated = after stored (update_job_occurrence memory sample_json 101 started stored)

update_ok : update_job_occurrence memory sample_json 101 started stored ≡ ok updated
unfolding stored updated memory empty_memory create_job_occurrence update_job_occurrence
    create_record update_record sample_json occurrence_key text_eq
update_ok = refl

create_wins_once_example :
    (create_job_occurrence memory sample_json started stored ≡ err (already_exists (7 ∷ [])))
    × (update_job_occurrence memory sample_json 101 waiting empty_memory ≡ err (not_found (7 ∷ [])))
create_wins_once_example =
    create_wins_once memory memory-laws sample_json sample_json-faithful waiting started 101
      empty_memory stored created refl refl

none_pending : list_pending_occurrences memory sample_json (3 ∷ []) empty_memory ≡ ok []
unfolding memory empty_memory list_pending_occurrences list_records
none_pending = refl

one_pending : list_pending_occurrences memory sample_json (3 ∷ []) stored ≡ ok (waiting ∷ [])
unfolding stored memory empty_memory create_job_occurrence create_record sample_json occurrence_key
    list_pending_occurrences list_records occurrence_prefix text_eq has_prefix
one_pending = refl

list_pending-create_example :
    Elem waiting (waiting ∷ [])
    ↔ (Elem waiting [] ⊎ ((waiting ≡ waiting) × (is_pending waiting.status ≡ true)))
list_pending-create_example =
    list_pending-create memory memory-laws sample_json sample_json-faithful waiting waiting
      empty_memory stored [] (waiting ∷ []) created none_pending one_pending

abbrev stamped : JobOccurrence
stamped = record started { updated_at = 101 }

one_running : list_running_occurrences memory sample_json updated ≡ ok (stamped ∷ [])
unfolding stored updated memory empty_memory create_job_occurrence update_job_occurrence
    create_record update_record sample_json occurrence_key list_running_occurrences list_records
    text_eq has_prefix contains
one_running = refl

list_running-update_example : Elem stamped (stamped ∷ []) ↔ (
    ((stamped ≡ stamped) × (is_running started.status ≡ true))
    ⊎ RunsElsewhere memory memory-laws sample_json sample_json-faithful started stamped stored)
list_running-update_example =
    list_running-update memory memory-laws sample_json sample_json-faithful started stamped 101
      stored updated (stamped ∷ []) update_ok one_running
