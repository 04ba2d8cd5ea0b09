-- ===== src/Badger/Records.antt =====
-- The shapes that the methods of storage/badger/badger.go share: create if not there, read, update
-- if there, and the loops over an iterator.
pub mod Stored
pub mod Listing
pub mod Changes
pub mod Finding
use schedule.Base.{
  Bool, true, false, Option, none, some, List, [], ◌∷◌, Text, Result, ok, err, Error,
  marshal_failed, unmarshal_failed, badger_error, map_ok, if◌then◌else◌,
}
use schedule.Badger.Database.{found, missing, failed, Item, Database, Codec}

unmarshal_or_fail : {A : Type 0} → Codec A → Text → Result A
unmarshal_or_fail c v = elim (c.unmarshal v) [ none ↦ err unmarshal_failed | some a ↦ ok a ]

module _ (b : Database) {A : Type 0} (c : Codec A) where
  put : Text → A → b.Db → Result b.Db
  put key a db = elim (c.marshal a) [ none ↦ err marshal_failed | some v ↦ b.set key v db ]

  -- Create: an error if the key exists, or if its lookup fails.
  unfoldable pub create_record : Text → Error → A → b.Db → Result b.Db
  unfolding put
  create_record key exists a db = elim (b.get key db) [
    | found _ ↦ err exists
    | failed n ↦ err (badger_error n)
    | missing ↦ put key a db
  ]

  unfoldable pub get_record : Text → Error → b.Db → Result (Option A)
  unfolding unmarshal_or_fail
  get_record key not_there db = elim (b.get key db) [
    | found v ↦ map_ok some (unmarshal_or_fail c v)
    | failed n ↦ err (badger_error n)
    | missing ↦ err not_there
  ]

  -- Update: an error if the key does not exist, or if its lookup fails.
  unfoldable pub update_record : Text → Error → A → b.Db → Result b.Db
  unfolding put
  update_record key not_there a db = elim (b.get key db) [
    | found _ ↦ put key a db
    | failed n ↦ err (badger_error n)
    | missing ↦ err not_there
  ]

module _ {A : Type 0} (c : Codec A) where
  read_item : Item → Result A
  unfolding unmarshal_or_fail
  read_item i = elim i.value [ err e ↦ err e | ok v ↦ unmarshal_or_fail c v ]

  consider : Bool → Result A → (A → Bool) → Result (List A) → Result (List A)
  consider false r p rest = rest
  consider true (err e) p rest = err e
  consider true (ok a) p rest = if p a then map_ok (λ as'. a ∷ as') rest else rest

  -- The loop of the List methods: skip keys that fail a test, stop at the first error, and append
  -- the records that pass the filter.
  unfoldable pub list_records : (Text → Bool) → (A → Bool) → List Item → Result (List A)
  unfolding read_item consider
  list_records test p [] = ok []
  list_records test p (i ∷ is) = consider (test i.key) (read_item i) p (list_records test p is)

  -- The loop of GetTask and GetJobOccurrence: the first item whose key passes the test.
  unfoldable pub find_record : (Text → Bool) → List Item → Result (Option A)
  unfolding read_item
  find_record test [] = ok none
  find_record test (i ∷ is) = if test i.key then map_ok some (read_item i) else find_record test is
