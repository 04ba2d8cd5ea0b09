-- ===== src/Badger/Jobs/Served.antt =====
-- The job methods of storage/badger/badger.go, call by call.
use schedule.Base.{
  ◌≡◌, refl, ◌∙◌, ap, subst, ◌⊎◌, ⊎-elim, inl, inr, Bool-cases, none, some, Option-cases, List, [],
  ◌∷◌, ◌++◌, Text, text_eq, text_eq-true, text_eq_refl, codes, ok, err, Error, marshal_failed,
  not_found, Result-cases, arith,
}
use schedule.Ticker.Window.{Time}
use schedule.Storage.{Job}
use schedule.Badger.Database.{found, missing, Database, DatabaseLaws, IsFaithful}
use schedule.Badger.Keys.{job_key}
use schedule.Badger.Records.{get_record}
use schedule.Badger.Records.Stored.{
  Wrote, create_record-ok, update_record-ok, get_record-Wrote, create_record_refused,
  update_record_refused, create_record_exists, update_record_missing,
}
use schedule.Badger.Operations.{Json, create_job, get_job, update_job, delete_job}
use schedule.Badger.Jobs.{
  JobCall, create, update, read, delete, Table, with_entry, answer, table_call, wrote, badger_call,
  Shows, IsOutage, IsServed,
}

text_eq_after : (p a b : Text) → text_eq (p ++ a) (p ++ b) ≡ text_eq a b
unfolding text_eq
text_eq_after [] a b = refl
text_eq_after (c ∷ p) a b = ground (arith, text_eq_after p a b)

job_key_eq : (i j : Text) → text_eq (job_key i) (job_key j) ≡ text_eq i j
unfolding job_key
job_key_eq i j = text_eq_after (codes "job/") i j

module _ (b : Database) (json : Json) (laws : DatabaseLaws b) (faithful : IsFaithful json.job) where
  get_job-only :
      (id : Text) (db db' : b.Db)
      → b.get (job_key id) db' ≡ b.get (job_key id) db
      → get_job b json id db' ≡ get_job b json id db
  unfolding get_job get_record
  get_job-only id db db' e = rw (get_job, get_record, e) refl

  missing_not_found :
      (id : Text) (db : b.Db)
      → b.get (job_key id) db ≡ missing
      → get_job b json id db ≡ err (not_found id)
  unfolding get_job get_record
  missing_not_found id db e = rw (get_job, get_record, e) refl

  -- What is at a job's key, from what GetJob answers.
  absent :
      (id : Text) (db : b.Db)
      → get_job b json id db ≡ err (not_found id)
      → b.get (job_key id) db ≡ missing
  unfolding get_job get_record
  absent id db h = ground arith

  present :
      (id : Text) (j : Job) (db : b.Db)
      → get_job b json id db ≡ ok (some j)
      → (v : Text) × (b.get (job_key id) db ≡ found v)
  unfolding get_job get_record
  present id j db h = ground arith

  Shows-Wrote :
      (i : Text) (a : Job) (db db' : b.Db) (m : Table)
      → Shows b json db m
      → Wrote b json.job (job_key i) a db db'
      → Shows b json db' (with_entry i (some a) m)
  unfolding get_job
  Shows-Wrote i a db db' m h w id = elim (Bool-cases (text_eq i id)) [
    | inl y ↦ rw y (
        subst (λ k. get_job b json k db' ≡ ok (some a)) (text_eq-true i id y)
          (get_record-Wrote b json.job laws faithful _ _ a db db' w))
    | inr n ↦ rw n (
        get_job-only id db db'
          (laws.get-set _ w.written _ db db' w.sets ∙ rw (job_key_eq i id, n) refl)
        ∙ h id)
  ]

  Shows-deleted :
      (i : Text) (db db' : b.Db) (m : Table)
      → Shows b json db m
      → b.delete (job_key i) db ≡ ok db'
      → Shows b json db' (with_entry i none m)
  unfolding get_job get_record
  Shows-deleted i db db' m h d id = elim (Bool-cases (text_eq i id)) [
    | inl y ↦ rw y (
        subst (λ k. get_job b json k db' ≡ err (not_found k)) (text_eq-true i id y)
          (missing_not_found i db'
            (laws.get-delete _ _ db db' d ∙ rw (text_eq_refl (job_key i)) refl)))
    | inr n ↦ rw n (
        get_job-only id db db' (laws.get-delete _ _ db db' d ∙ rw (job_key_eq i id, n) refl) ∙ h id)
  ]

  abbrev Step : JobCall → b.Db → Table → Type 0
  Step c db m =
      ((e : Error) × IsOutage b json db e × (badger_call b json c db ≡ (err e, db)))
      ⊎ ((db' : b.Db) × (badger_call b json c db ≡ ((table_call c m).0, db'))
          × Shows b json db' (table_call c m).1)

  refused :
      (key : Text) (e : Error) (a : Job) (db : b.Db)
      → ((e ≡ marshal_failed) × (json.job.marshal a ≡ none))
        ⊎ ((v : Text) × (b.set key v db ≡ err e))
      → IsOutage b json db e
  refused key e a db (inl h) = inl h.0
  refused key e a db (inr (v, h)) = inr (inl (key, v, h))

  create_served : (job : Job) (db : b.Db) (m : Table) → Shows b json db m → Step (create job) db m
  unfolding badger_call table_call create_job
  create_served job db m h = elim (Option-cases (m job.id)) [
    | inr (j, q) ↦
        let (v, e) = present job.id j db (h job.id ∙ ap (answer job.id) q) in
        inr (
          db,
          ap (λ r. wrote b json r db) (create_record_exists b json.job _ v _ job db e)
              ∙ rw (q, table_call) refl,
          rw (q, table_call) h,
        )
    | inl q ↦
        let gone = absent job.id db (h job.id ∙ ap (answer job.id) q) in
        elim (Result-cases (create_job b json job db)) [
          | inr (e, c) ↦ inl (
            e,
            refused _ e _ db (create_record_refused b json.job _ _ e job db gone c),
            ap (λ r. wrote b json r db) c,
          )
          | inl (db', c) ↦ inr (
            db',
            ap (λ r. wrote b json r db) c ∙ rw (q, table_call) refl,
            rw (q, table_call)
                (Shows-Wrote job.id job db db' m h
                  (create_record-ok b json.job _ _ job db db' c).1),
          )
        ]
  ]

  update_served :
      (now : Time) (job : Job) (db : b.Db) (m : Table)
      → Shows b json db m
      → Step (update now job) db m
  unfolding badger_call table_call update_job
  update_served now job db m h = elim (Option-cases (m job.id)) [
    | inl q ↦
        let gone = absent job.id db (h job.id ∙ ap (answer job.id) q) in
        inr (
          db,
          ap (λ r. wrote b json r db)
                (update_record_missing b json.job _ _ (record job { updated_at = now }) db gone)
              ∙ rw (q, table_call) refl,
          rw (q, table_call) h,
        )
    | inr (j, q) ↦
        let (v, there) = present job.id j db (h job.id ∙ ap (answer job.id) q) in
        elim (Result-cases (update_job b json now job db)) [
          | inr (e, c) ↦ inl (
            e,
            refused _ e _ db (update_record_refused b json.job _ v _ e _ db there c),
            ap (λ r. wrote b json r db) c,
          )
          | inl (db', c) ↦ inr (
            db',
            ap (λ r. wrote b json r db) c ∙ rw (q, table_call) refl,
            rw (q, table_call)
                (Shows-Wrote job.id _ db db' m h (update_record-ok b json.job _ _ _ db db' c).1),
          )
        ]
  ]

  delete_served : (id : Text) (db : b.Db) (m : Table) → Shows b json db m → Step (delete id) db m
  unfolding badger_call table_call delete_job
  delete_served id db m h = elim (Result-cases (b.delete (job_key id) db)) [
    | inr (e, c) ↦ inl (e, inr (inr (job_key id, c)), ap (λ r. wrote b json r db) c)
    | inl (db', c) ↦ inr (db', ap (λ r. wrote b json r db) c, Shows-deleted id db db' m h c)
  ]

  read_served : (id : Text) (db : b.Db) (m : Table) → Shows b json db m → Step (read id) db m
  unfolding badger_call table_call
  read_served id db m h = inr (db, ap (λ r. (r, db)) (h id), h)

  serves : (c : JobCall) (db : b.Db) (m : Table) → Shows b json db m → Step c db m
  serves (create job) db m h = create_served job db m h
  serves (update now job) db m h = update_served now job db m h
  serves (read id) db m h = read_served id db m h
  serves (delete id) db m h = delete_served id db m h

  -- CreateJob, UpdateJob, DeleteJob and GetJob, in any order, over a database that has the jobs of a
  -- table: each call fails with an error of the encoding or of a write that Badger refuses and
  -- changes nothing, or answers as the table does, with the database showing the table that
  -- the call leaves. So a job that is created or updated is read back, whatever happens to others.
  pub badger_jobs_refine :
      (cs : List JobCall) (db : b.Db) (m : Table) → Shows b json db m → IsServed b json cs db m
  badger_jobs_refine [] db m h = h
  badger_jobs_refine (c ∷ cs) db m h =
      ⊎-elim (serves c db m h) (λ (e, o, q). inl (e, o, q, badger_jobs_refine cs db m h))
        (λ (db', q, k). inr (db', q, badger_jobs_refine cs db' (table_call c m).1 k))
