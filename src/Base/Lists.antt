-- ===== src/Base/Lists.antt =====
-- Lists measured and cut by native numbers, and predicates on lists by recursion.
use Prim.Native.Nat.{ℕ, zero, suc, ◌+◌, ◌-◌, ◌≤◌}
use mathlib.Core.Path.{◌≡◌, refl, subst}
use mathlib.Core.Logic.{◌↔◌, ◌⊎◌, inl, inr}
use mathlib.Core.Bool.{Bool, true}
use mathlib.Core.Option.{Option, none, some, some-injective}
use mathlib.Core.List.{List, [], ◌∷◌, ◌++◌}
use native.Mathlib.Omega.{arith}
use schedule.Base.Tests.{if◌then◌else◌, Option-cases}

module _ {ℓ} {A : Type ℓ} where
  abbrev pub length : List A → ℕ
  length [] = 0
  length (x ∷ xs) = suc (length xs)

  abbrev pub drop : ℕ → List A → List A
  drop zero xs = xs
  drop (suc n) [] = []
  drop (suc n) (x ∷ xs) = drop n xs

  -- The elements that a Boolean test keeps, in their order: Go's loop of `append`.
  abbrev pub keep : (A → Bool) → List A → List A
  keep p [] = []
  keep p (x ∷ xs) = if p x then x ∷ keep p xs else keep p xs

module _ {ℓ} {A : Type ℓ} where
  pub length-append : (xs ys : List A) → length (xs ++ ys) ≡ length xs + length ys
  length-append [] ys = omega arith
  length-append (x ∷ xs) ys = omega (arith, length-append xs ys)

  pub length-drop : (n : ℕ) (xs : List A) → length (drop n xs) ≡ length xs - n
  length-drop zero xs = omega arith
  length-drop (suc n) [] = omega arith
  length-drop (suc n) (x ∷ xs) = omega (arith, length-drop n xs)

  pub length-keep-le : (p : A → Bool) (xs : List A) → length (keep p xs) ≤ length xs
  length-keep-le p [] = omega arith
  length-keep-le p (x ∷ xs) = ground (arith, length-keep-le p xs)

  pub drop-append : (xs ys : List A) → drop (length xs) (xs ++ ys) ≡ ys
  drop-append [] ys = refl
  drop-append (x ∷ xs) ys = drop-append xs ys

module _ {A : Type 0} where
  -- Membership by recursion, which the tactics take apart.
  abbrev pub Elem : A → List A → Type 0
  Elem a [] = ⊥
  Elem a (x ∷ xs) = (a ≡ x) ⊎ Elem a xs

  -- Every element satisfies a predicate.
  abbrev pub All : (A → Type 0) → List A → Type 0
  All P [] = Unit
  All P (x ∷ xs) = P x × All P xs

module _ {A : Type 0} where
  pub Elem-drop : (n : ℕ) (xs : List A) (a : A) → Elem a (drop n xs) → Elem a xs
  Elem-drop zero xs a h = h
  Elem-drop (suc n) [] a h = h
  Elem-drop (suc n) (x ∷ xs) a h = inr (Elem-drop n xs a h)

  Elem-keep-to :
      (p : A → Bool) (xs : List A) (a : A) → Elem a (keep p xs) → Elem a xs × (p a ≡ true)
  Elem-keep-to p [] a h = absurd h
  Elem-keep-to p (x ∷ xs) a h = ground (arith, Elem-keep-to p xs a)

  Elem-keep-from :
      (p : A → Bool) (xs : List A) (a : A) → Elem a xs → p a ≡ true → Elem a (keep p xs)
  Elem-keep-from p [] a h q = h
  Elem-keep-from p (x ∷ xs) a h q = ground (arith, Elem-keep-from p xs a)

  pub Elem-keep :
      (p : A → Bool) (xs : List A) (a : A) → Elem a (keep p xs) ↔ (Elem a xs × (p a ≡ true))
  Elem-keep p xs a = (Elem-keep-to p xs a, λ h. Elem-keep-from p xs a h.0 h.1)

  pub Elem-append : (xs ys : List A) (a : A) → Elem a (xs ++ ys) ↔ (Elem a xs ⊎ Elem a ys)
  Elem-append [] ys a = (inr, λ h. ground arith)
  Elem-append (x ∷ xs) ys a = ground (arith, Elem-append xs ys a)

  pub All-Elem : (P : A → Type 0) (xs : List A) (a : A) → All P xs → Elem a xs → P a
  All-Elem P [] a h e = absurd e
  All-Elem P (x ∷ xs) a h (inl e) = rw e h.0
  All-Elem P (x ∷ xs) a h (inr e) = All-Elem P xs a h.1 e

  pub All-of-Elem : (P : A → Type 0) (xs : List A) → ((a : A) → Elem a xs → P a) → All P xs
  All-of-Elem P [] h = tt
  All-of-Elem P (x ∷ xs) h = (h x (inl refl), All-of-Elem P xs (λ a m. h a (inr m)))

  pub All-append : (P : A → Type 0) (xs ys : List A) → All P xs → All P ys → All P (xs ++ ys)
  All-append P [] ys h k = k
  All-append P (x ∷ xs) ys h k = (h.0, All-append P xs ys h.1 k)

-- An element of a list by its position, and the others.
abbrev pub take_at {ℓ} : {A : Type ℓ} → ℕ → List A → Option (A × List A)
take_at k [] = none
take_at zero (x ∷ xs) = some (x, xs)
take_at (suc k) (x ∷ xs) = elim (take_at k xs) [ none ↦ none | some (y, ys) ↦ some (y, x ∷ ys) ]

module _ {A : Type 0} where
  abbrev pub sum_of : (A → ℕ) → List A → ℕ
  sum_of f [] = 0
  sum_of f (x ∷ xs) = f x + sum_of f xs

  pub sum_of-take_at :
      (f : A → ℕ) (k : ℕ) (xs rest : List A) (x : A)
      → take_at k xs ≡ some (x, rest)
      → sum_of f xs ≡ f x + sum_of f rest
  sum_of-take_at f k [] rest x h = absurd (cc)
  sum_of-take_at f zero (y ∷ xs) rest x h = ground arith
  sum_of-take_at f (suc k) (y ∷ xs) rest x h = elim (Option-cases (take_at k xs)) [
    | inl d ↦ absurd (cc (rw d at h))
    | inr ((z, zs), d) ↦ ground (arith, sum_of-take_at f k xs zs z d)
  ]

  pub length-take_at :
      (k : ℕ) (xs rest : List A) (x : A)
      → take_at k xs ≡ some (x, rest)
      → length xs ≡ suc (length rest)
  length-take_at k [] rest x h = absurd (cc)
  length-take_at zero (y ∷ xs) rest x h = ground arith
  length-take_at (suc k) (y ∷ xs) rest x h = elim (Option-cases (take_at k xs)) [
    | inl d ↦ absurd (cc (rw d at h))
    | inr ((z, zs), d) ↦ ground (arith, length-take_at k xs zs z d)
  ]

  pub All-take_at :
      (P : A → Type 0) (k : ℕ) (xs rest : List A) (x : A)
      → take_at k xs ≡ some (x, rest)
      → All P xs
      → P x × All P rest
  All-take_at P k [] rest x h a = absurd (cc)
  All-take_at P zero (y ∷ xs) rest x h (p, a) =
      subst (λ r. P r.0 × All P r.1) (some-injective _ _ h) (p, a)
  All-take_at P (suc k) (y ∷ xs) rest x h (p, a) = elim (Option-cases (take_at k xs)) [
    | inl d ↦ absurd (cc (rw d at h))
    | inr ((z, zs), d) ↦
        let (q, b) = All-take_at P k xs zs z d a in
        subst (λ r. P r.0 × All P r.1) (some-injective _ _ (rw d at h)) (q, (p, b))
  ]
