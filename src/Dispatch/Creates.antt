-- ===== src/Dispatch/Creates.antt =====
-- What the dispatch of an occurrence relies on: a storage that creates an occurrence once, and lists of
-- occurrences that are all different.
use schedule.Base.{◌≡◌, List, [], ◌∷◌, ◌++◌, All, All-append, Text, Error, ok, err}
use schedule.Types.{JobOccurrence}
use schedule.Storage.{Storage}
use schedule.Storage
use schedule.Executor.Kept.{Keeps}

-- CreateJobOccurrence fails for an occurrence that is stored, and no write of the executor removes one.
pub record CreatesOnce (st : Storage) : Type 1 where
  -- by the identifiers of a job and an occurrence
  pub Stored : Text → Text → st.State → Type 0
  pub now_stored :
      (o : Storage.JobOccurrence) (s t : st.State)
      → st.create_job_occurrence o s ≡ ok t
      → Stored o.job_id o.id t
  pub not_before :
      (o : Storage.JobOccurrence) (s t : st.State)
      → st.create_job_occurrence o s ≡ ok t
      → Stored o.job_id o.id s
      → ⊥
  pub created_kept :
      (o : Storage.JobOccurrence) (j i : Text) (s t : st.State)
      → st.create_job_occurrence o s ≡ ok t
      → Stored j i s
      → Stored j i t
  pub keeps : (j i : Text) → Keeps st (Stored j i)

-- A create is refused only because the occurrence is stored.
abbrev pub RefusesStored : (st : Storage) → CreatesOnce st → Type 0
RefusesStored st once =
    (o : Storage.JobOccurrence) (s : st.State) (e : Error)
    → st.create_job_occurrence o s ≡ err e
    → once.Stored o.job_id o.id s

abbrev pub Same : JobOccurrence → JobOccurrence → Type 0
Same o p = (p.job_id ≡ o.job_id) × (p.id ≡ o.id)

abbrev pub Distinct : List JobOccurrence → Type 0
Distinct [] = Unit
Distinct (o ∷ os) = All (λ p. Same o p → ⊥) os × Distinct os

pub Distinct-append :
    (A : JobOccurrence → Type 0) (os ps : List JobOccurrence)
    → ((o p : JobOccurrence) → Same o p → A o → A p)
    → Distinct os
    → Distinct ps
    → All A os
    → All (λ p. A p → ⊥) ps
    → Distinct (os ++ ps)
Distinct-append A [] ps same d e all unseen = e
Distinct-append A (o ∷ os) ps same (f, d) e (a, all) unseen =
    (All-append _ os ps f (apart ps unseen), Distinct-append A os ps same d e all unseen)
  where
    apart : (ps : List JobOccurrence) → All (λ p. A p → ⊥) ps → All (λ p. Same o p → ⊥) ps
    apart [] u = tt
    apart (p ∷ ps) (u, us) = (λ s. u (same o p s a), apart ps us)

pub All-map :
    (P Q : JobOccurrence → Type 0) (os : List JobOccurrence)
    → ((o : JobOccurrence) → P o → Q o)
    → All P os
    → All Q os
All-map P Q [] f u = tt
All-map P Q (o ∷ os) f (p, u) = (f o p, All-map P Q os f u)
