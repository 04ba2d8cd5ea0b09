-- ===== src/Badger/Jobs.antt =====
-- The job methods of storage/badger/badger.go beside what they are for: a map from identifiers to jobs.
pub mod Served
use schedule.Base.{
  ◌≡◌, refl, ◌∙◌, ap, subst, ◌⊎◌, ⊎-elim, inl, inr, Bool-cases, Option, none, some, Option-cases,
  List, [], ◌∷◌, ◌++◌, Text, text_eq, text_eq-true, text_eq_refl, codes, Result, ok, err, Error,
  marshal_failed, already_exists, not_found, Result-cases, arith, if◌then◌else◌,
}
use schedule.Ticker.Window.{Time}
use schedule.Storage.{Job}
use schedule.Badger.Database.{found, missing, Database, DatabaseLaws, IsFaithful}
use schedule.Badger.Keys.{job_key}
use schedule.Badger.Records.{get_record}
use schedule.Badger.Records.Stored.{
  Wrote, create_record-ok, update_record-ok, get_record-Wrote, create_record_refused,
  update_record_refused, create_record_exists, update_record_missing,
}
use schedule.Badger.Operations.{Json, create_job, get_job, update_job, delete_job}

pub data JobCall : Type 0 where
  create : Job → JobCall
  update : Time → Job → JobCall
  read delete : Text → JobCall

abbrev pub Table : Type 0
Table = Text → Option Job

abbrev pub with_entry : Text → Option Job → Table → Table
with_entry id j m = λ i. if text_eq id i then j else m i

abbrev pub answer : Text → Option Job → Result (Option Job)
answer id none = err (not_found id)
answer id (some j) = ok (some j)

-- What the methods are for.
unfoldable pub table_call : JobCall → Table → Result (Option Job) × Table
table_call (create job) m = elim (m job.id) [
  | none ↦ (ok none, with_entry job.id (some job) m)
  | some _ ↦ (err (already_exists job.id), m)
]
table_call (update now job) m = elim (m job.id) [
  | none ↦ (err (not_found job.id), m)
  | some _ ↦ (ok none, with_entry job.id (some (record job { updated_at = now })) m)
]
table_call (read id) m = (answer id (m id), m)
table_call (delete id) m = (ok none, with_entry id none m)

module _ (b : Database) (json : Json) where
  wrote : Result b.Db → b.Db → Result (Option Job) × b.Db
  wrote (ok t) s = (ok none, t)
  wrote (err e) s = (err e, s)

  unfoldable pub badger_call : JobCall → b.Db → Result (Option Job) × b.Db
  unfolding wrote
  badger_call (create job) db = wrote (create_job b json job db) db
  badger_call (update now job) db = wrote (update_job b json now job db) db
  badger_call (read id) db = (get_job b json id db, db)
  badger_call (delete id) db = wrote (delete_job b json id db) db

  -- The database has the jobs of a table.
  abbrev pub Shows : b.Db → Table → Type 0
  Shows db m = (id : Text) → get_job b json id db ≡ answer id (m id)

  -- JSON fails, or Badger refuses a write.
  abbrev pub IsOutage : b.Db → Error → Type 0
  IsOutage db e =
      (e ≡ marshal_failed)
      ⊎ (((k : Text) × (v : Text) × (b.set k v db ≡ err e))
          ⊎ ((k : Text) × (b.delete k db ≡ err e)))

  -- Each call fails with an outage and changes nothing, or answers as the table does.
  abbrev pub IsServed : List JobCall → b.Db → Table → Type 0
  IsServed [] db m = Shows db m
  IsServed (c ∷ cs) db m =
      ((e : Error) × IsOutage db e × (badger_call c db ≡ (err e, db)) × IsServed cs db m)
      ⊎ ((db' : b.Db) × (badger_call c db ≡ ((table_call c m).0, db'))
          × IsServed cs db' (table_call c m).1)
