-- ===== src/Badger/Records/Stored.antt =====
-- What the writes of storage/badger/badger.go leave in the database, and what its loops return.
use schedule.Base.{
  ◌≡◌, ◌∙◌, sym, ap, ◌↔◌, ◌⊎◌, inl, inr, ◌≢◌, some, Text, text_eq, text_eq-true, text_eq_refl, ok,
  marshal_failed, none, Option-cases, err, Error, arith, if◌then◌else◌, ⊎-elim, Bool-cases,
}
use schedule.Badger.Database.{found, missing, Database, DatabaseLaws, Codec, IsFaithful}
use schedule.Badger.Records.{put, create_record, get_record, update_record}

module _ (b : Database) {A : Type 0} (c : Codec A) where
  -- The record x is stored under a key.
  pub record IsStored (x : A) (key : Text) (db : b.Db) : Type 0 where
    pub data' : Text
    pub at_key : b.get key db ≡ found data'
    pub decodes : c.unmarshal data' ≡ some x

  -- The one write of a transaction that succeeds.
  pub record Wrote (key : Text) (a : A) (db db' : b.Db) : Type 0 where
    pub written : Text
    pub marshals : c.marshal a ≡ some written
    pub sets : b.set key written db ≡ ok db'

  pub create_record-ok :
      (key : Text) (exists : Error) (a : A) (db db' : b.Db)
      → create_record b c key exists a db ≡ ok db'
      → (b.get key db ≡ missing) × Wrote key a db db'
  unfolding create_record
  create_record-ok key exists a db db' h = ground arith

  pub update_record-ok :
      (key : Text) (not_there : Error) (a : A) (db db' : b.Db)
      → update_record b c key not_there a db ≡ ok db'
      → ((v : Text) × (b.get key db ≡ found v)) × Wrote key a db db'
  unfolding update_record
  update_record-ok key not_there a db db' h = ground arith

  put_refused :
      (key : Text) (e : Error) (a : A) (db : b.Db)
      → put b c key a db ≡ err e
      → ((e ≡ marshal_failed) × (c.marshal a ≡ none)) ⊎ ((v : Text) × (b.set key v db ≡ err e))
  unfolding put
  put_refused key e a db h = elim (Option-cases (c.marshal a)) [
    | inl n ↦ inl (cc (rw (n, put) at h), n)
    | inr (v, s) ↦ inr (v, rw (s, put) at h)
  ]

  -- A write that is not refused for its key fails at the encoding or in the database.
  pub create_record_refused :
      (key : Text) (exists e : Error) (a : A) (db : b.Db)
      → b.get key db ≡ missing
      → create_record b c key exists a db ≡ err e
      → ((e ≡ marshal_failed) × (c.marshal a ≡ none)) ⊎ ((v : Text) × (b.set key v db ≡ err e))
  unfolding create_record
  create_record_refused key exists e a db m h = put_refused key e a db (rw (m, create_record) at h)

  pub update_record_refused :
      (key v : Text) (not_there e : Error) (a : A) (db : b.Db)
      → b.get key db ≡ found v
      → update_record b c key not_there a db ≡ err e
      → ((e ≡ marshal_failed) × (c.marshal a ≡ none)) ⊎ ((v : Text) × (b.set key v db ≡ err e))
  unfolding update_record
  update_record_refused key v not_there e a db m h =
      put_refused key e a db (rw (m, update_record) at h)

  pub create_record_exists :
      (key v : Text) (exists : Error) (a : A) (db : b.Db)
      → b.get key db ≡ found v
      → create_record b c key exists a db ≡ err exists
  unfolding create_record
  create_record_exists key v exists a db m = ground arith

  pub update_record_missing :
      (key : Text) (not_there : Error) (a : A) (db : b.Db)
      → b.get key db ≡ missing
      → update_record b c key not_there a db ≡ err not_there
  unfolding update_record
  update_record_missing key not_there a db m = ground arith

  module _ (laws : DatabaseLaws b) (faithful : IsFaithful c) where
    get-Wrote :
        (key j : Text) (a : A) (db db' : b.Db) (w : Wrote key a db db')
        → b.get j db' ≡ (if text_eq key j then found w.written else b.get j db)
    get-Wrote key j a db db' w = laws.get-set key w.written j db db' w.sets

    get-Wrote_self :
        (key : Text) (a : A) (db db' : b.Db) (w : Wrote key a db db')
        → b.get key db' ≡ found w.written
    get-Wrote_self key a db db' w = get-Wrote key key a db db' w ∙ rw (text_eq_refl key)

    get-Wrote_ne :
        (key j : Text) (a : A) (db db' : b.Db)
        → Wrote key a db db'
        → j ≢ key
        → b.get j db' ≡ b.get j db
    get-Wrote_ne key j a db db' w n =
        ground (arith, get-Wrote key j a db db' w, text_eq-true key j, n)

    Wrote-IsStored_to :
        (key k : Text) (a x : A) (db db' : b.Db)
        → Wrote key a db db'
        → IsStored x k db'
        → (k ≡ key) × (x ≡ a) ⊎ ((k ≢ key) × IsStored x k db)
    Wrote-IsStored_to key k a x db db' w s = elim (Bool-cases (text_eq key k)) [
      | inl same ↦
          let e : k ≡ key = sym (text_eq-true key k same) in
          inl (
            e,
            cc (
              ap (λ j. b.get j db') e,
              s.at_key,
              get-Wrote_self key a db db' w,
              s.decodes,
              faithful a w.written w.marshals,
            ),
          )
      | inr other ↦
          let n : k ≢ key = λ e. cc (other, ap (λ j. text_eq key j) e, text_eq_refl key) in
          inr (
            n,
            record {
              data' = s.data';
              at_key = sym (get-Wrote_ne key k a db db' w n) ∙ s.at_key;
              decodes = s.decodes;
            },
          )
    ]

    -- The other records stay, and the key holds the record that was written.
    pub Wrote-IsStored :
        (key k : Text) (a x : A) (db db' : b.Db)
        → Wrote key a db db'
        → IsStored x k db' ↔ ((k ≡ key) × (x ≡ a) ⊎ ((k ≢ key) × IsStored x k db))
    Wrote-IsStored key k a x db db' w = (
      Wrote-IsStored_to key k a x db db' w,
      λ h.
          ⊎-elim h
            (λ (e, f). record {
              data' = w.written;
              at_key = ap (λ j. b.get j db') e ∙ get-Wrote_self key a db db' w;
              decodes = faithful a w.written w.marshals ∙ ap some (sym f);
            })
            (λ (n, s). record {
              data' = s.data';
              at_key = get-Wrote_ne key k a db db' w n ∙ s.at_key;
              decodes = s.decodes;
            }),
    )

    -- A second create of a key fails, and so does an update before the create.
    pub create_twice :
        (key : Text) (exists exists' not_there : Error) (a a' : A) (db db' : b.Db)
        → create_record b c key exists a db ≡ ok db'
        → (create_record b c key exists' a' db' ≡ err exists')
          × (update_record b c key not_there a' db ≡ err not_there)
    unfolding create_record update_record
    create_twice key exists exists' not_there a a' db db' h =
        let (m, w) = create_record-ok key exists a db db' h in
        (ground (arith, get-Wrote_self key a db db' w), ground arith)

    pub get_record-Wrote :
        (key : Text) (e : Error) (a : A) (db db' : b.Db)
        → Wrote key a db db'
        → get_record b c key e db' ≡ ok (some a)
    unfolding get_record
    get_record-Wrote key e a db db' w =
        ground (arith, get-Wrote_self key a db db' w, faithful a w.written w.marshals)

    -- What was created is read back.
    pub get-create :
        (key : Text) (exists not_there : Error) (a : A) (db db' : b.Db)
        → create_record b c key exists a db ≡ ok db'
        → get_record b c key not_there db' ≡ ok (some a)
    get-create key exists not_there a db db' h =
        get_record-Wrote key not_there a db db' (create_record-ok key exists a db db' h).1

    pub get-update :
        (key : Text) (not_there not_there' : Error) (a : A) (db db' : b.Db)
        → update_record b c key not_there a db ≡ ok db'
        → get_record b c key not_there' db' ≡ ok (some a)
    get-update key not_there not_there' a db db' h =
        get_record-Wrote key not_there' a db db' (update_record-ok key not_there a db db' h).1
