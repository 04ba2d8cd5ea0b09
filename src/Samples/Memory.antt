-- ===== src/Samples/Memory.antt =====
-- A database in memory: an association list with the newest entry of a key first.
use schedule.Base.{
  ℕ, ◌≡◌, refl, sym, ap, ◌∙◌, inl, inr, true, List, [], ◌∷◌, ◌++◌, Elem-append, Text, text_eq,
  text_eq-true, text_eq_refl, has_prefix, ok, ok-injective, arith, Elem, Bool-cases, ⊎-elim,
  if◌then◌else◌,
}
use schedule.Badger.Database.{Lookup, found, missing, failed, Item, Database, DatabaseLaws}

abbrev pub Entries : Type 0
Entries = List (Text × Text)

lookup : Text → Entries → Lookup
lookup k [] = missing
lookup k ((j, v) ∷ es) = if text_eq j k then found v else lookup k es

without : Text → Entries → Entries
without k [] = []
without k ((j, v) ∷ es) = if text_eq j k then without k es else (j, v) ∷ without k es

item_at : Text → Lookup → List Item
item_at j (found v) = record { key = j; value = ok v } ∷ []
item_at j _ = []

-- The items of the keys of `es`, with the values that `all` gives them.
items : Text → Entries → Entries → List Item
unfolding item_at
items p all [] = []
items p all ((j, v) ∷ es) =
    if has_prefix j p then item_at j (lookup j all) ++ items p all es else items p all es

unfoldable pub memory : Database
unfolding lookup without items
memory = record {
  Db = Entries;
  get = lookup;
  set = λ k v db. ok ((k, v) ∷ without k db);
  delete = λ k db. ok (without k db);
  iterate = λ p db. items p db db;
}

text_eq_apart : (k j i : Text) → text_eq k i ≡ true → text_eq j i ≡ true → text_eq k j ≡ true
text_eq_apart k j i p q = rw (text_eq-true k i p, text_eq-true j i q) (text_eq_refl i)

lookup-without :
    (k j : Text) (es : Entries)
    → lookup j (without k es) ≡ (if text_eq k j then missing else lookup j es)
unfolding lookup without
lookup-without k j [] = ground arith
lookup-without k j ((i, v) ∷ es) = ground (
  arith,
  lookup-without k j es,
  text_eq-true i k,
  text_eq-true i j,
  text_eq-true k j,
  text_eq_refl k,
  text_eq_refl j,
)

item_at_sound :
    (j : Text) (l : Lookup) (i : Item)
    → Elem i (item_at j l)
    → (v : Text) × (l ≡ found v) × (i ≡ record { key = j; value = ok v })
unfolding item_at
item_at_sound j (found v) i (inl e) = (v, refl, e)
item_at_sound j (found v) i (inr m) = absurd m
item_at_sound j missing i m = absurd m
item_at_sound j (failed n) i m = absurd m

items-cons :
    (p j u : Text) (all es : Entries) (i : Item)
    → Elem i (items p all es)
    → Elem i (items p all ((j, u) ∷ es))
unfolding items
items-cons p j u all es i m = elim (Bool-cases (has_prefix j p)) [
  | inl y ↦ rw y ((Elem-append (item_at j (lookup j all)) (items p all es) i).1 (inr m))
  | inr n ↦ rw n m
]

items_sound :
    (p : Text) (all es : Entries) (i : Item)
    → Elem i (items p all es)
    → (has_prefix i.key p ≡ true)
      × ((v : Text) × (lookup i.key all ≡ found v) × ((w : Text) → i.value ≡ ok w → w ≡ v))
unfolding items
items_sound p all [] i m = absurd m
items_sound p all ((j, v) ∷ es) i m = elim (Bool-cases (has_prefix j p)) [
  | inl y ↦
      ⊎-elim ((Elem-append (item_at j (lookup j all)) (items p all es) i).0 (rw y at m))
        (λ a.
          let (v, e, f) = item_at_sound j (lookup j all) i a in
          (
            ap (λ (i : Item). has_prefix i.key p) f ∙ y,
            (
              v,
              ap (λ (i : Item). lookup i.key all) f ∙ e,
              λ w g. cc (ap (λ (i : Item). i.value) f, g),
            ),
          ))
        (items_sound p all es i)
  | inr n ↦ items_sound p all es i (rw n at m)
]

items_complete :
    (p : Text) (all es : Entries) (k v w : Text)
    → lookup k es ≡ found w
    → lookup k all ≡ found v
    → has_prefix k p ≡ true
    → (i : Item) × Elem i (items p all es) × (i.key ≡ k)
unfolding items lookup
items_complete p all [] k v w h e q = absurd (cc)
items_complete p all ((j, u) ∷ es) k v w h e q = elim (Bool-cases (text_eq j k)) [
  | inl same ↦
      let eq : j ≡ k = text_eq-true j k same in
      let at_j : lookup j all ≡ found v = ap (λ j. lookup j all) eq ∙ e in
      (record { key = j; value = ok v }, now (ap (λ j. has_prefix j p) eq ∙ q) at_j, eq)
  | inr other ↦
      let (i, m, f) = items_complete p all es k v w (rw other at h) e q in
      (i, items-cons p j u all es i m, f)
]
  where
    now :
        has_prefix j p ≡ true
        → lookup j all ≡ found v
        → Elem (record { key = j; value = ok v }) (items p all ((j, u) ∷ es))
    now y l = rw y (
        (Elem-append (item_at j (lookup j all)) (items p all es) _).1
          (inl (rw l (unfold item_at in inl refl))))

lookup-set :
    (k v j : Text) (es : Entries)
    → lookup j ((k, v) ∷ without k es) ≡ (if text_eq k j then found v else lookup j es)
unfolding lookup
lookup-set k v j es = ground (arith, lookup-without k j es)

pub memory-laws : DatabaseLaws memory
unfolding memory
memory-laws = record {
  get-set = λ k v j db db' h. ap (lookup j) (sym (ok-injective h)) ∙ lookup-set k v j db;
  get-delete = λ k j db db' h. ap (lookup j) (sym (ok-injective h)) ∙ lookup-without k j db;
  iterate-get = λ p k v db e q. items_complete p db db k v v e e q;
  get-iterate = λ p db i m. items_sound p db db i m;
}

unfoldable pub empty_memory : memory.Db
unfolding memory
empty_memory = []

lookup_reads : (k : Text) (n : ℕ) (es : Entries) → lookup k es ≡ failed n → ⊥
unfolding lookup
lookup_reads k n [] h = absurd (cc)
lookup_reads k n ((j, v) ∷ es) h = ground (arith, lookup_reads k n es)

-- No lookup fails.
pub memory_reads : (k : Text) (n : ℕ) (db : memory.Db) → memory.get k db ≡ failed n → ⊥
unfolding memory
memory_reads k n db h = lookup_reads k n db h
