-- ===== src/Pool/Traces.antt =====
-- Runs of concurrency/pool.go: what every event keeps, every run keeps.
use schedule.Base.{◌++◌, ap, ◌≡◌, refl, List, [], ◌∷◌, inl, inr, ◌⊎◌, subst}
use schedule.Pool.{WorkerPool, PoolEvent, PoolOutcome, next, blocked, panics, pool_step, run_pool}

module _ {A : Type 0} where
  -- What holds of the state that a step ends in, if it ends in one.
  abbrev pub Lands : (WorkerPool A → Type 0) → PoolOutcome A → Type 0
  Lands P (next q) = P q
  Lands P blocked = Unit
  Lands P panics = Unit

  pub next-injective : {p q : WorkerPool A} → next p ≡ next q → p ≡ q
  next-injective h = cc

  pub PoolOutcome-cases :
      (o : PoolOutcome A) → ((q : WorkerPool A) × (o ≡ next q)) ⊎ ((o ≡ blocked) ⊎ (o ≡ panics))
  PoolOutcome-cases (next q) = inl (q, refl)
  PoolOutcome-cases blocked = inr (inl refl)
  PoolOutcome-cases panics = inr (inr refl)

  pub run_pool-Lands :
      (P : WorkerPool A → Type 0)
      → ((e : PoolEvent A) (p : WorkerPool A) → P p → Lands P (pool_step e p))
      → (es : List (PoolEvent A)) (p : WorkerPool A) → P p
      → Lands P (run_pool es p)
  unfolding run_pool
  run_pool-Lands P step [] p h = h
  run_pool-Lands P step (e ∷ es) p h = elim (PoolOutcome-cases (pool_step e p)) [
    | inl (q, d) ↦ rw (d, run_pool) (run_pool-Lands P step es q (subst (Lands P) d (step e p h)))
    | inr (inl d) ↦ rw (d, run_pool) tt
    | inr (inr d) ↦ rw (d, run_pool) tt
  ]

  pub run_pool-append :
      (es fs : List (PoolEvent A)) (p q : WorkerPool A)
      → run_pool es p ≡ next q
      → run_pool (es ++ fs) p ≡ run_pool fs q
  unfolding run_pool
  run_pool-append [] fs p q h = ap (run_pool fs) (next-injective h)
  run_pool-append (e ∷ es) fs p q h = elim (PoolOutcome-cases (pool_step e p)) [
    | inl (r, d) ↦ rw (d, run_pool) (run_pool-append es fs r q (rw (d, run_pool) at h))
    | inr (inl d) ↦ absurd (cc (rw (d, run_pool) at h))
    | inr (inr d) ↦ absurd (cc (rw (d, run_pool) at h))
  ]

  pub run_after :
      (e : PoolEvent A) (es : List (PoolEvent A)) (p q : WorkerPool A)
      → pool_step e p ≡ next q
      → run_pool (e ∷ es) p ≡ run_pool es q
  unfolding run_pool
  run_after e es p q h = rw (h, run_pool) refl
