-- ===== src/Badger/Occurrences.antt =====
-- What the occurrence methods of storage/badger/badger.go promise: a create wins once, and the lists
-- show what was written.
use schedule.Base.{
  ◌≡◌, refl, sym, ap₂, subst, ◌↔◌, ◌⊎◌, true, List, codes, ok, err, already_exists, not_found, Elem,
}
use schedule.Ticker.Window.{Time}
use schedule.Types.{is_running, is_pending}
use schedule.Storage.{JobOccurrence}
use schedule.Badger.Database.{Database, DatabaseLaws, IsFaithful}
use schedule.Badger.Records.{create_record}
use schedule.Badger.Records.Stored.{create_twice}
use schedule.Badger.Records.Changes.{IsListedElsewhere, listed-create, listed-update}
use schedule.Badger.Keys.{occurrence_key, occurrence_prefix}
use schedule.Badger.Keys.Laws.{occurrence_key-prefix, occurrence_key-job, occurrence_key-contains}
use schedule.Badger.Operations.{
  Json, create_job_occurrence, update_job_occurrence, list_running_occurrences,
  list_pending_occurrences, is_occurrence_key,
}

module _ (b : Database) (laws : DatabaseLaws b) (json : Json)
    (faithful : IsFaithful json.occurrence) where
  -- The race for an occurrence: once a create of its key has succeeded, every other create of the
  -- same identifiers fails, and an update before it would have failed.
  pub create_wins_once :
      (o o' : JobOccurrence) (now : Time) (db db' : b.Db)
      → create_job_occurrence b json o db ≡ ok db'
      → o'.job_id ≡ o.job_id
      → o'.id ≡ o.id
      → (create_job_occurrence b json o' db' ≡ err (already_exists o'.id))
        × (update_job_occurrence b json now o db ≡ err (not_found o.id))
  unfolding create_job_occurrence update_job_occurrence
  create_wins_once o o' now db db' h ej ei =
      let key = occurrence_key o.job_id o.id in
      let (twice, _) =
        create_twice b json.occurrence laws faithful key (already_exists o.id)
          (already_exists o'.id) (not_found o.id) o o' db db' h in
      let (_, early) =
        create_twice b json.occurrence laws faithful key (already_exists o.id)
          (already_exists o'.id) (not_found o.id) o (record o { updated_at = now }) db db' h in
      (
        subst
            (λ k.
              create_record b json.occurrence k (already_exists o'.id) o' db'
              ≡ err (already_exists o'.id))
            (sym (ap₂ occurrence_key ej ei)) twice,
        early,
      )

  -- After a create, the pending occurrences of its job are those before and the new one, if that is
  -- pending.
  pub list_pending-create :
      (o x : JobOccurrence) (db db' : b.Db) (before now : List JobOccurrence)
      → create_job_occurrence b json o db ≡ ok db'
      → list_pending_occurrences b json o.job_id db ≡ ok before
      → list_pending_occurrences b json o.job_id db' ≡ ok now
      → Elem x now ↔ (Elem x before ⊎ ((x ≡ o) × (is_pending o.status ≡ true)))
  unfolding create_job_occurrence list_pending_occurrences
  list_pending-create o x db db' before now h hb hn =
      listed-create b laws json.occurrence faithful (λ _. true) (λ o. is_pending o.status)
        (occurrence_prefix o.job_id) (occurrence_key o.job_id o.id) (already_exists o.id) o x db db'
        before now h (occurrence_key-prefix o.job_id o.id) refl hb hn

  -- A stored occurrence of another key that is running.
  abbrev pub RunsElsewhere : JobOccurrence → JobOccurrence → b.Db → Type 0
  RunsElsewhere o x db =
      IsListedElsewhere b laws json.occurrence faithful is_occurrence_key (λ x. is_running x.status)
        (codes "job/") (occurrence_key o.job_id o.id) x db

  -- After an update, the running occurrences are the updated one, if it is running, with the time of
  -- the update, and those under other keys that were running before.
  pub list_running-update :
      (o x : JobOccurrence) (now : Time) (db db' : b.Db) (after : List JobOccurrence)
      → update_job_occurrence b json now o db ≡ ok db'
      → list_running_occurrences b json db' ≡ ok after
      → Elem x after ↔ (
          ((x ≡ record o { updated_at = now }) × (is_running o.status ≡ true))
          ⊎ RunsElsewhere o x db)
  unfolding update_job_occurrence list_running_occurrences
  list_running-update o x now db db' after h hl =
      listed-update b laws json.occurrence faithful is_occurrence_key (λ x. is_running x.status)
        (codes "job/") (occurrence_key o.job_id o.id) (not_found o.id)
        (record o { updated_at = now }) x db db' after h (occurrence_key-job o.job_id o.id)
        (occurrence_key-contains o.job_id o.id) hl
