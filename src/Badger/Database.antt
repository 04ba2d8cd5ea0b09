-- ===== src/Badger/Database.antt =====
-- What badger.go uses of the packages badger and encoding/json, as parameters with the behaviour
-- that they document.
use schedule.Base.{
  ℕ, ◌≡◌, true, Option, some, List, Text, text_eq, has_prefix, Result, ok, Elem, if◌then◌else◌,
}

-- The result of `txn.Get`: a value, ErrKeyNotFound or another error.
pub data Lookup : Type 0 where
  found : Text → Lookup
  missing : Lookup
  failed : ℕ → Lookup

-- An item of an iterator; reading its value can fail.
pub record Item : Type 0 where
  pub key : Text
  pub value : Result Text

-- A transaction that writes one key is `set` or `delete`, which fail if the write or the commit
-- does. `iterate` gives the items whose keys have a prefix, in the order of the keys.
pub record Database : Type 1 where
  pub Db : Type 0
  pub get : Text → Db → Lookup
  pub set : Text → Text → Db → Result Db
  pub delete : Text → Db → Result Db
  pub iterate : Text → Db → List Item

pub record DatabaseLaws (b : Database) : Type 0 where
  pub get-set :
      (k v j : Text) (db db' : b.Db)
      → b.set k v db ≡ ok db'
      → b.get j db' ≡ (if text_eq k j then found v else b.get j db)
  pub get-delete :
      (k j : Text) (db db' : b.Db)
      → b.delete k db ≡ ok db'
      → b.get j db' ≡ (if text_eq k j then missing else b.get j db)
  -- The items are the keys that have a value, each with that value or an error.
  pub iterate-get :
      (p k v : Text) (db : b.Db)
      → b.get k db ≡ found v
      → has_prefix k p ≡ true
      → (i : Item) × Elem i (b.iterate p db) × (i.key ≡ k)
  pub get-iterate :
      (p : Text) (db : b.Db) (i : Item)
      → Elem i (b.iterate p db)
      → (has_prefix i.key p ≡ true)
        × ((v : Text) × (b.get i.key db ≡ found v) × ((w : Text) → i.value ≡ ok w → w ≡ v))

-- `json.Marshal` and `json.Unmarshal` at a type of records.
pub record Codec (A : Type 0) : Type 0 where
  pub marshal : A → Option Text
  pub unmarshal : Text → Option A

-- What was marshalled unmarshals to itself.
abbrev pub IsFaithful : {A : Type 0} → Codec A → Type 0
IsFaithful {A} c = (a : A) (data' : Text) → c.marshal a ≡ some data' → c.unmarshal data' ≡ some a
