-- ===== src/Badger/Records/Listing.antt =====
-- The loops of the List methods of storage/badger/badger.go, against the records that are stored.
use schedule.Base.{
  ◌≡◌, ◌∙◌, refl, sym, ap, ◌↔◌, inl, inr, Bool, true, false, some, List, [], ◌∷◌, Text, has_prefix,
  Result, ok, err, arith, Elem, ⊎-elim, Bool-cases,
}
use schedule.Badger.Database.{Item, Database, DatabaseLaws, Codec}
use schedule.Badger.Records.{list_records, read_item, consider}
use schedule.Badger.Records.Stored.{IsStored}

module _ {A : Type 0} (c : Codec A) (test : Text → Bool) (p : A → Bool) where
  -- The record x is read off an item that passes the test, and passes the filter.
  record IsRead (x : A) (i : Item) : Type 0 where
    tested : test i.key ≡ true
    reads : read_item c i ≡ ok x
    kept : p x ≡ true

  -- What a round of the loop did, when the rest of the loop gave `rest`.
  data Considered (t : Bool) (r : Result A) (xs rest : List A) : Type 0 where
    skipped : t ≡ false → xs ≡ rest → Considered t r xs rest
    taken : (a : A) → t ≡ true → r ≡ ok a → p a ≡ true → xs ≡ a ∷ rest → Considered t r xs rest
    dropped : (a : A) → t ≡ true → r ≡ ok a → p a ≡ false → xs ≡ rest → Considered t r xs rest

  consider-cases :
      (t : Bool) (r : Result A) (rest : Result (List A)) (xs : List A)
      → consider c t r p rest ≡ ok xs
      → (q : List A) × (rest ≡ ok q) × Considered t r xs q
  unfolding consider
  consider-cases false r (ok q) xs h = (q, refl, skipped refl (ground arith))
  consider-cases false r (err e) xs h = absurd (cc)
  consider-cases true (err e) rest xs h = absurd (cc)
  consider-cases true (ok a) (ok q) xs h = elim (Bool-cases (p a)) [
    | inl y ↦ (q, refl, taken a refl refl y (ground arith))
    | inr n ↦ (q, refl, dropped a refl refl n (ground arith))
  ]
  consider-cases true (ok a) (err e) xs h = absurd (ground arith)

  list_records_sound :
      (items : List Item) (xs : List A) (x : A)
      → list_records c test p items ≡ ok xs
      → Elem x xs
      → (i : Item) × Elem i items × IsRead x i
  unfolding list_records
  list_records_sound [] xs x h m = absurd (let e : xs ≡ [] = ground arith in rw e at m)
  list_records_sound (i ∷ items) xs x h m =
      let (q, e, o) = consider-cases (test i.key) (read_item c i) _ xs h in
      by_round o (list_records_sound items q x e)
    where
      later :
          (i' : Item) × Elem i' items × IsRead x i'
          → (i' : Item) × Elem i' (i ∷ items) × IsRead x i'
      later (j, k, l) = (j, inr k, l)

      by_round :
          {q : List A}
          → Considered (test i.key) (read_item c i) xs q
          → (Elem x q → (i' : Item) × Elem i' items × IsRead x i')
          → (i' : Item) × Elem i' (i ∷ items) × IsRead x i'
      by_round (skipped _ e) rec = later (rec (rw e at m))
      by_round (dropped a _ _ _ e) rec = later (rec (rw e at m))
      by_round (taken a t r k e) rec =
          ⊎-elim (rw e at m)
            (λ eq. (i, inl refl, record { tested = t; reads = rw eq r; kept = rw eq k }))
            (λ n. later (rec n))

  Elem-now :
      (j : Item) (x : A) (xs q : List A)
      → Considered (test j.key) (read_item c j) xs q
      → IsRead x j
      → Elem x xs
  Elem-now j x xs q (skipped t e) r = absurd (cc (r.tested))
  Elem-now j x xs q (dropped a t f k e) r = absurd (cc (r.reads, r.kept))
  Elem-now j x xs q (taken a t f k e) r = rw e (inl (cc (r.reads)))

  Elem-later :
      (t : Bool) (r : Result A) (x : A) (xs q : List A) → Considered t r xs q → Elem x q → Elem x xs
  Elem-later t r x xs q (skipped _ e) m = rw e m
  Elem-later t r x xs q (dropped _ _ _ _ e) m = rw e m
  Elem-later t r x xs q (taken _ _ _ _ e) m = rw e (inr m)

  list_records_complete :
      (items : List Item) (xs : List A) (x : A) (i : Item)
      → list_records c test p items ≡ ok xs
      → Elem i items
      → IsRead x i
      → Elem x xs
  unfolding list_records
  list_records_complete [] xs x i h m r = absurd m
  list_records_complete (j ∷ items) xs x i h m r =
      let (q, e, o) = consider-cases (test j.key) (read_item c j) _ xs h in
      ⊎-elim m (λ eq. Elem-now j x xs q o (rw eq at r))
        (λ n.
          Elem-later (test j.key) (read_item c j) x xs q o
            (list_records_complete items q x i e n r))

  readable-now :
      (i j : Item) (xs q : List A)
      → Considered (test j.key) (read_item c j) xs q
      → i ≡ j
      → test i.key ≡ true
      → (a : A) × (read_item c i ≡ ok a)
  readable-now i j xs q (skipped f _) eq t = absurd (cc (ap (λ (k : Item). test k.key) eq))
  readable-now i j xs q (dropped a _ r _ _) eq t = (a, rw eq r)
  readable-now i j xs q (taken a _ r _ _) eq t = (a, rw eq r)

  -- An item that passes the test was read without an error.
  list_records-readable :
      (items : List Item) (xs : List A) (i : Item)
      → list_records c test p items ≡ ok xs
      → Elem i items
      → test i.key ≡ true
      → (a : A) × (read_item c i ≡ ok a)
  unfolding list_records
  list_records-readable [] xs i h m t = absurd m
  list_records-readable (j ∷ items) xs i h m t =
      let (q, e, o) = consider-cases (test j.key) (read_item c j) _ xs h in
      ⊎-elim m (λ eq. readable-now i j xs q o eq t) (λ n. list_records-readable items q i e n t)

module _ (b : Database) (laws : DatabaseLaws b) {A : Type 0} (c : Codec A) (test : Text → Bool)
    (p : A → Bool) (prefix : Text) where
  -- A stored record whose key is iterated over and passes the test, and that passes the filter.
  pub record IsListed (x : A) (db : b.Db) (key : Text) : Type 0 where
    pub stored : IsStored b c x key db
    pub prefixed : has_prefix key prefix ≡ true
    pub tested : test key ≡ true
    pub kept : p x ≡ true

  decode-IsRead :
      (i : Item) (v w : Text) (x : A)
      → i.value ≡ ok w
      → w ≡ v
      → c.unmarshal v ≡ some x
      → read_item c i ≡ ok x
  unfolding read_item
  decode-IsRead i v w x e f d = ground (arith, ap c.unmarshal f)

  read-value :
      (i : Item) (x : A)
      → read_item c i ≡ ok x
      → (w : Text) × (i.value ≡ ok w) × (c.unmarshal w ≡ some x)
  unfolding read_item
  read-value i x h = ground arith

  IsRead-IsListed :
      (db : b.Db) (i : Item) (x : A)
      → Elem i (b.iterate prefix db)
      → IsRead c test p x i
      → IsListed x db i.key
  IsRead-IsListed db i x m r =
      let (has, (v, e, same)) = laws.get-iterate prefix db i m in
      let (w, f, d) = read-value i x r.reads in
      record {
        stored = record { data' = v; at_key = e; decodes = ap c.unmarshal (sym (same w f)) ∙ d };
        prefixed = has;
        tested = r.tested;
        kept = r.kept;
      }

  IsListed-Elem :
      (db : b.Db) (xs : List A) (key : Text) (x : A)
      → list_records c test p (b.iterate prefix db) ≡ ok xs
      → IsListed x db key
      → Elem x xs
  IsListed-Elem db xs key x h l =
      let (i, m, e) = laws.iterate-get prefix key l.stored.data' db l.stored.at_key l.prefixed in
      let t : test i.key ≡ true = ap test e ∙ l.tested in
      let (a, r) = list_records-readable c test p _ xs i h m t in
      let (w, f, d) = read-value i a r in
      let (has, (v, g, same)) = laws.get-iterate prefix db i m in
      let eq : w ≡ l.stored.data' =
        same w f ∙ cc (sym g, ap (λ k. b.get k db) e, l.stored.at_key) in
      list_records_complete c test p _ xs x i h m (record {
        tested = t;
        reads = decode-IsRead i l.stored.data' w x f eq l.stored.decodes;
        kept = l.kept;
      })

  -- A list that is returned holds exactly the records that are stored under such a key.
  pub list_records_exact :
      (db : b.Db) (xs : List A) (x : A)
      → list_records c test p (b.iterate prefix db) ≡ ok xs
      → Elem x xs ↔ ((key : Text) × IsListed x db key)
  list_records_exact db xs x h = (
    λ m.
        let (i, n, r) = list_records_sound c test p _ xs x h m in
        (i.key, IsRead-IsListed db i x n r),
    λ (key, l). IsListed-Elem db xs key x h l,
  )
