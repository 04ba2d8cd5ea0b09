-- ===== src/Base/Results.antt =====
-- Go's `(value, error)` results. An error value is a constructor for each place that makes one;
-- the text of its message is not kept.
use mathlib.Core.Path.{◌≡◌, refl}
use mathlib.Core.Logic.{◌⊎◌, inl, inr}
use schedule.Base.Texts.{Text}
use Prim.Native.Nat.{ℕ}

pub data Error : Type 0 where
  -- ticker
  invalid_timezone invalid_expression bad_interval already_executed too_many_occurrences : Error
  -- storage: a record that exists or is missing, JSON, and the errors that Badger returns
  already_exists not_found : Text → Error
  marshal_failed unmarshal_failed : Error
  badger_error : ℕ → Error
  -- executor
  task_failed : Text → Error
  context_error : Error
  -- update and scheduler
  version_mismatch : ℕ → ℕ → Error
  not_registered already_registered : Text → Error
  already_running : Error

pub data Result {ℓ} (A : Type ℓ) : Type ℓ where
  ok : A → Result A
  err : Error → Result A

-- `if err != nil { return err }` before the rest of a function.
infixl 5 ◌>>=◌
abbrev pub ◌>>=◌ : {A B : Type 0} → Result A → (A → Result B) → Result B
◌>>=◌ attempt rest = elim attempt [ err e ↦ err e | ok a ↦ rest a ]

abbrev pub map_ok {ℓ κ} : {A : Type ℓ} {B : Type κ} → (A → B) → Result A → Result B
map_ok f (ok a) = ok (f a)
map_ok f (err e) = err e

-- The state after a transaction: an error leaves it as it was.
abbrev pub after {ℓ} : {S : Type ℓ} → S → Result S → S
after s (ok t) = t
after s (err e) = s

pub ok-injective {ℓ} : {A : Type ℓ} {a b : A} → ok a ≡ ok b → a ≡ b
ok-injective h = cc

pub Result-cases {ℓ} :
    {A : Type ℓ} (r : Result A) → ((a : A) × (r ≡ ok a)) ⊎ ((e : Error) × (r ≡ err e))
Result-cases (ok a) = inl (a, refl)
Result-cases (err e) = inr (e, refl)
