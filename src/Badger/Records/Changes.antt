-- ===== src/Badger/Records/Changes.antt =====
-- How a write of storage/badger/badger.go changes what a List method returns.
use schedule.Base.{
  ◌≡◌, ◌≢◌, refl, ap, subst, ◌∙◌, ◌↔◌, ◌⊎◌, inl, inr, Bool, true, List, Text, has_prefix, ok, Error,
  Elem, ⊎-elim,
}
use schedule.Badger.Database.{Database, DatabaseLaws, Codec, IsFaithful}
use schedule.Badger.Records.{create_record, update_record, list_records}
use schedule.Badger.Records.Stored.{Wrote, Wrote-IsStored, create_record-ok, update_record-ok}
use schedule.Badger.Records.Listing.{IsListed, list_records_exact}

module _ (b : Database) (laws : DatabaseLaws b) {A : Type 0} (c : Codec A) (faithful : IsFaithful c)
    (test : Text → Bool) (p : A → Bool) (prefix : Text) where
  -- A stored record that the list shows, under another key than one that is written.
  abbrev pub IsListedElsewhere : Text → A → b.Db → Type 0
  IsListedElsewhere key x db = (k : Text) × (k ≢ key) × IsListed b laws c test p prefix x db k

  IsListed-Wrote :
      (key k : Text) (a x : A) (db db' : b.Db)
      → Wrote b c key a db db'
      → IsListed b laws c test p prefix x db' k
      → ((x ≡ a) × (p a ≡ true)) ⊎ IsListedElsewhere key x db
  IsListed-Wrote key k a x db db' w l =
      ⊎-elim ((Wrote-IsStored b c laws faithful key k a x db db' w).0 l.stored)
        (λ (_, e). inl (e, subst (λ y. p y ≡ true) e l.kept))
        (λ (n, s).
          inr
            (k, n, record { stored = s; prefixed = l.prefixed; tested = l.tested; kept = l.kept }))

  IsListed-elsewhere :
      (key k : Text) (a x : A) (db db' : b.Db)
      → Wrote b c key a db db'
      → k ≢ key
      → IsListed b laws c test p prefix x db k
      → IsListed b laws c test p prefix x db' k
  IsListed-elsewhere key k a x db db' w n l = record {
    stored = (Wrote-IsStored b c laws faithful key k a x db db' w).1 (inr (n, l.stored));
    prefixed = l.prefixed;
    tested = l.tested;
    kept = l.kept;
  }

  IsListed-new :
      (key : Text) (a x : A) (db db' : b.Db)
      → Wrote b c key a db db'
      → has_prefix key prefix ≡ true
      → test key ≡ true
      → (x ≡ a) × (p a ≡ true)
      → IsListed b laws c test p prefix x db' key
  IsListed-new key a x db db' w hp ht (e, k) = record {
    stored = (Wrote-IsStored b c laws faithful key key a x db db' w).1 (inl (refl, e));
    prefixed = hp;
    tested = ht;
    kept = ap p e ∙ k;
  }

  -- After a write, the list shows the new record, if it passes the filter, and the others.
  listed-Wrote :
      (key : Text) (a x : A) (db db' : b.Db) (now : List A)
      → Wrote b c key a db db'
      → has_prefix key prefix ≡ true
      → test key ≡ true
      → list_records c test p (b.iterate prefix db') ≡ ok now
      → Elem x now ↔ (((x ≡ a) × (p a ≡ true)) ⊎ IsListedElsewhere key x db)
  listed-Wrote key a x db db' now w hp ht h =
      let exact = list_records_exact b laws c test p prefix db' now x h in
      (
        λ m. let (k, l) = exact.0 m in IsListed-Wrote key k a x db db' w l,
        λ o. exact.1 (
            ⊎-elim o (λ new. (key, IsListed-new key a x db db' w hp ht new))
              (λ (k, n, l). (k, IsListed-elsewhere key k a x db db' w n l))),
      )

  pub listed-update :
      (key : Text) (e : Error) (a x : A) (db db' : b.Db) (now : List A)
      → update_record b c key e a db ≡ ok db'
      → has_prefix key prefix ≡ true
      → test key ≡ true
      → list_records c test p (b.iterate prefix db') ≡ ok now
      → Elem x now ↔ (((x ≡ a) × (p a ≡ true)) ⊎ IsListedElsewhere key x db)
  listed-update key e a x db db' now h =
      listed-Wrote key a x db db' now (update_record-ok b c key e a db db' h).1

  pub listed-create :
      (key : Text) (e : Error) (a x : A) (db db' : b.Db) (before now : List A)
      → create_record b c key e a db ≡ ok db'
      → has_prefix key prefix ≡ true
      → test key ≡ true
      → list_records c test p (b.iterate prefix db) ≡ ok before
      → list_records c test p (b.iterate prefix db') ≡ ok now
      → Elem x now ↔ (Elem x before ⊎ ((x ≡ a) × (p a ≡ true)))
  listed-create key e a x db db' before now h hp ht hb hn =
      let (m, w) = create_record-ok b c key e a db db' h in
      let exact = list_records_exact b laws c test p prefix db before x hb in
      let change = listed-Wrote key a x db db' now w hp ht hn in
      (
        λ n. ⊎-elim (change.0 n) inr (λ (k, _, l). inl (exact.1 (k, l))),
        λ n. change.1 (
            ⊎-elim n
              (λ old.
                let (k, l) = exact.0 old in
                inr (k, λ q. cc (m, ap (λ j. b.get j db) q, l.stored.at_key), l))
              inl),
      )
