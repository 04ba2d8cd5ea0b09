-- ===== src/Badger/Once.antt =====
-- storage/badger/badger.go as a storage that creates an occurrence once.
use schedule.Base.{
  ◌≡◌, ◌∙◌, refl, ◌≢◌, ℕ, ⊎-elim, none, err, Error, inl, inr, Bool-cases, Text, text_eq,
  text_eq_refl,
}
use schedule.Badger.Database.{found, failed, missing, Lookup, Database, DatabaseLaws, Codec}
use schedule.Badger.Records.Stored.{
  Wrote, create_record-ok, update_record-ok, create_record_refused,
}
use schedule.Badger.Keys.{occurrence_key}
use schedule.Badger.Operations.{
  Json, badger_storage, create_job_occurrence, update_job_occurrence, create_task_run,
  update_task_run, create_execution_attempt, update_execution_attempt,
}
use schedule.Storage.{JobOccurrence}
use schedule.Dispatch.Creates.{CreatesOnce, RefusesStored}

module _ (b : Database) (laws : DatabaseLaws b) (json : Json) where
  abbrev pub Present : Text → b.Db → Type 0
  Present key db = (v : Text) × (b.get key db ≡ found v)

  pub Present-Wrote :
      {A : Type 0} (c : Codec A) (key j : Text) (a : A) (db db' : b.Db)
      → Wrote b c key a db db'
      → Present j db
      → Present j db'
  Present-Wrote c key j a db db' w (v, e) = elim (Bool-cases (text_eq key j)) [
    | inl y ↦ (w.written, laws.get-set key w.written j db db' w.sets ∙ rw y refl)
    | inr n ↦ (v, laws.get-set key w.written j db db' w.sets ∙ rw n e)
  ]

  pub badger_creates_once : CreatesOnce (badger_storage b json)
  unfolding badger_storage create_job_occurrence update_job_occurrence create_task_run
      update_task_run create_execution_attempt update_execution_attempt
  badger_creates_once = record {
    Stored = λ j i db. Present (occurrence_key j i) db;
    now_stored = λ o s t h.
        let (m, w) = create_record-ok b json.occurrence _ _ o s t h in
        (
          w.written,
          laws.get-set _ w.written _ s t w.sets
              ∙ rw (text_eq_refl (occurrence_key o.job_id o.id)) refl,
        );
    not_before =
        λ o s t h (v, e). let (m, w) = create_record-ok b json.occurrence _ _ o s t h in cc (m, e);
    created_kept = λ o j i s t h.
        Present-Wrote json.occurrence _ _ _ s t (create_record-ok b json.occurrence _ _ o s t h).1;
    keeps = λ j i. record {
      occurrence_kept = λ now o s t h.
          Present-Wrote json.occurrence _ _ _ s t
            (update_record-ok b json.occurrence _ _ _ s t h).1;
      created_run_kept =
          λ r s t h. Present-Wrote json.run _ _ r s t (create_record-ok b json.run _ _ r s t h).1;
      updated_run_kept = λ now r s t h.
          Present-Wrote json.run _ _ _ s t (update_record-ok b json.run _ _ _ s t h).1;
      created_attempt_kept = λ a s t h.
          Present-Wrote json.attempt _ _ a s t (create_record-ok b json.attempt _ _ a s t h).1;
      updated_attempt_kept = λ a s t h.
          Present-Wrote json.attempt _ _ a s t (update_record-ok b json.attempt _ _ a s t h).1;
    };
  }

  -- A database that reads and writes every key, with an encoding of every occurrence.
  pub record NeverFails : Type 0 where
    pub reads : (key : Text) (n : ℕ) (db : b.Db) → b.get key db ≢ failed n
    pub writes : (key v : Text) (e : Error) (db : b.Db) → b.set key v db ≢ err e
    pub encodes : (o : JobOccurrence) → json.occurrence.marshal o ≢ none

  pub badger_refuses_stored : NeverFails → RefusesStored (badger_storage b json) badger_creates_once
  unfolding badger_creates_once badger_storage create_job_occurrence
  badger_refuses_stored never o s e h = present_at (b.get (occurrence_key o.job_id o.id) s) refl
    where
      present_at :
          (l : Lookup)
          → b.get (occurrence_key o.job_id o.id) s ≡ l
          → Present (occurrence_key o.job_id o.id) s
      present_at (found v) q = (v, q)
      present_at (failed n) q = absurd (never.reads _ n s q)
      present_at missing q =
          ⊎-elim (create_record_refused b json.occurrence _ _ e o s q h)
            (λ (m, n). absurd (never.encodes o n)) (λ (v, w). absurd (never.writes _ v e s w))
