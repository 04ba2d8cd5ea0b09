-- ===== src/Badger/Records/Finding.antt =====
-- The first record of an iterator of storage/badger/badger.go whose key passes a test.
use schedule.Base.{
  ◌≡◌, refl, ap, ◌⊎◌, ⊎-elim, inl, inr, Bool, true, false, Bool-cases, some, List, [], ◌∷◌, Text,
  ok, err, Error, Result-cases, Elem,
}
use schedule.Badger.Database.{Item, Codec}
use schedule.Badger.Records.{find_record, read_item, unmarshal_or_fail}

module _ {A : Type 0} (c : Codec A) (test : Text → Bool) (key : Text) (a : A) where
  -- Every item whose key passes the test has the one key, and holds the record if it can be read.
  abbrev pub IsOnly : List Item → Type 0
  IsOnly is =
      (i : Item)
      → Elem i is
      → test i.key ≡ true
      → (i.key ≡ key) × ((w : Text) → i.value ≡ ok w → c.unmarshal w ≡ some a)

  -- An item that cannot be read.
  abbrev pub IsUnread : List Item → Error → Type 0
  IsUnread is e = (i : Item) × Elem i is × (i.value ≡ err e)

  pub find_record-IsOnly :
      (is : List Item)
      → IsOnly is
      → test key ≡ true
      → ((i : Item) × Elem i is × (i.key ≡ key))
      → (find_record c test is ≡ ok (some a))
        ⊎ ((e : Error) × IsUnread is e × (find_record c test is ≡ err e))
  unfolding find_record read_item unmarshal_or_fail
  find_record-IsOnly [] only t (i, m, k) = absurd m
  find_record-IsOnly (x ∷ xs) only t (i, m, k) = elim (Bool-cases (test x.key)) [
    | inl y ↦ elim (Result-cases x.value) [
      | inl (w, v) ↦
          inl
            (rw (y, v, find_record, read_item, unmarshal_or_fail, (only x (inl refl) y).1 w v) refl)
      | inr (e, v) ↦ inr (e, (x, inl refl, v), rw (y, v, find_record, read_item) refl)
    ]
    | inr n ↦
        ⊎-elim (find_record-IsOnly xs (λ j q. only j (inr q)) t (later n m))
          (λ h. inl (rw (n, find_record) h))
          (λ (e, (j, q, v), h). inr (e, (j, inr q, v), rw (n, find_record) h))
  ]
    where
      later : test x.key ≡ false → Elem i (x ∷ xs) → (j : Item) × Elem j xs × (j.key ≡ key)
      later n (inl q) = absurd (cc (n, t, ap (λ (j : Item). test j.key) q, ap test k))
      later n (inr q) = (i, q, k)
