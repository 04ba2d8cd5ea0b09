-- ===== src/Dispatch/Once.antt =====
-- Why an occurrence is submitted once: whoever creates its record submits it, and a record is created
-- once. The storage is any that keeps what it has created.
use schedule.Base.{
  ◌≡◌, refl, sym, ap, ap₂, ◌∙◌, subst, ◌⊎◌, inl, inr, false, Bool-cases, Option, none, some,
  Option-cases, some-injective, List, [], ◌∷◌, ◌++◌, append-nil, append_assoc, All, All-append,
  Text, ok,
}
use schedule.Types.{JobOccurrence}
use schedule.Storage.{Storage}
use schedule.Storage
use schedule.Ids.{Formats}
use schedule.Job.{Job}
use schedule.Executor.{Env, World}
use schedule.Executor.Groups.{Executed, execute_job_occurrence}
use schedule.Executor.Kept.{Holds, execute_job_occurrence_kept}
use schedule.Dispatch.{Node, submit, work}
use schedule.Dispatch.Creates.{CreatesOnce, Distinct, Distinct-append, All-map}

module _ (st : Storage) (once : CreatesOnce st) where
  abbrev IsIn : st.State → JobOccurrence → Type 0
  IsIn s o = once.Stored o.job_id o.id s

  -- From one state to another, occurrences are submitted that were not stored, all of them different,
  -- and that are stored then, and nothing that was stored is lost.
  pub record Extends (n m : Node st) : Type 0 where
    pub new : List JobOccurrence
    pub grows : m.submitted ≡ n.submitted ++ new
    pub distinct : Distinct new
    pub fresh : All (λ o. IsIn n.world.state o → ⊥) new
    pub stored : All (IsIn m.world.state) new
    pub kept : (j i : Text) → once.Stored j i n.world.state → once.Stored j i m.world.state

  pub unchanged :
      (n m : Node st) → m.submitted ≡ n.submitted → m.world.state ≡ n.world.state → Extends n m
  unchanged n m e f = record {
    new = [];
    grows = e ∙ sym (append-nil n.submitted);
    distinct = tt;
    fresh = tt;
    stored = tt;
    kept = λ j i h. subst (once.Stored j i) (sym f) h;
  }

  pub Extends-trans : (n m k : Node st) → Extends n m → Extends m k → Extends n k
  Extends-trans n m k a b = record {
    new = a.new ++ b.new;
    grows = b.grows ∙ ap (λ l. l ++ b.new) a.grows ∙ append_assoc n.submitted a.new b.new;
    distinct =
        Distinct-append (IsIn m.world.state) a.new b.new
          (λ o p (j, i) h.
            subst (λ x. once.Stored x p.id m.world.state) (sym j)
              (subst (λ x. once.Stored o.job_id x m.world.state) (sym i) h))
          a.distinct b.distinct a.stored b.fresh;
    fresh =
        All-append _ a.new b.new a.fresh
          (All-map _ _ b.new (λ o h s. h (a.kept o.job_id o.id s)) b.fresh);
    stored =
        All-append _ a.new b.new (All-map _ _ a.new (λ o h. b.kept o.job_id o.id h) a.stored)
          b.stored;
    kept = λ j i h. b.kept j i (a.kept j i h);
  }

  created-Extends :
      (o : JobOccurrence) (r : Storage.JobOccurrence) (n k : Node st) (s : st.State)
      → (r.job_id ≡ o.job_id) × (r.id ≡ o.id)
      → st.create_job_occurrence r n.world.state ≡ ok s
      → k.submitted ≡ n.submitted ++ o ∷ []
      → ((j i : Text) → once.Stored j i s → once.Stored j i k.world.state)
      → Extends n k
  created-Extends o r n k s (e, f) c q kept =
      let named = λ (t : st.State). ap₂ (λ j i. once.Stored j i t) e f in
      record {
        new = o ∷ [];
        grows = q;
        distinct = (tt, tt);
        fresh = (
          λ h. once.not_before r n.world.state s c (subst (λ X. X) (sym (named n.world.state)) h),
          tt,
        );
        stored = (
          kept o.job_id o.id (subst (λ X. X) (named s) (once.now_stored r n.world.state s c)),
          tt,
        );
        kept = λ j i h. kept j i (once.created_kept r j i n.world.state s c h);
      }

  -- A step ends with its submits made, or the pool is not started and an execution panics.
  abbrev pub Ends : Node st → Option (Node st) → Type 0
  Ends n result =
      ((m : Node st) × (result ≡ some m) × Extends n m × (m.pool_started ≡ n.pool_started))
      ⊎ ((result ≡ none) × (n.pool_started ≡ false))

  pub Ends-then :
      (n : Node st) (m : Option (Node st)) (f : Node st → Option (Node st))
      → Ends n m
      → ((k : Node st) → Ends k (f k))
      → Ends n (elim m [ none ↦ none | some k ↦ f k ])
  Ends-then n m f (inr (e, s)) h = rw e (inr (refl, s))
  Ends-then n m f (inl (k, e, x, s)) h = rw e (further (f k) (h k))
    where
      further : (result : Option (Node st)) → Ends k result → Ends n result
      further result (inl (l, d, y, t)) = inl (l, d, Extends-trans n k l x y, t ∙ s)
      further result (inr (d, t)) = inr (d, sym s ∙ t)

  pub Ends-Extends :
      (n m : Node st) (result : Option (Node st)) → Ends n result → result ≡ some m → Extends n m
  Ends-Extends n m result (inl (k, e, x, s)) h =
      subst (Extends n) (some-injective _ _ (sym e ∙ h)) x
  Ends-Extends n m result (inr (e, s)) h = absurd (cc)

  module _ (env : Env) (ids : Formats) where
    pub executed_kept :
        (job : Job) (o : JobOccurrence) (w v : World st) (x : Executed)
        → execute_job_occurrence st env ids job o w ≡ some (x, v)
        → (j i : Text) → once.Stored j i w.state
        → once.Stored j i v.state
    executed_kept job o w v x e j i h =
        subst (Holds st env ids (once.Stored j i) (once.keeps j i)) e
          (execute_job_occurrence_kept st env ids (once.Stored j i) (once.keeps j i) job o w h)

    -- The submit that follows a create.
    pub submit_created :
        (job : Job) (o : JobOccurrence) (r : Storage.JobOccurrence) (n m : Node st)
        → (r.job_id ≡ o.job_id) × (r.id ≡ o.id)
        → st.create_job_occurrence r n.world.state ≡ ok m.world.state
        → (m.submitted ≡ n.submitted) × (m.pool_started ≡ n.pool_started)
        → Ends n (submit st env ids job o m)
    unfolding submit
    submit_created job o r n m (j, i) c (q, p) =
        let grown = ap (λ l. l ++ o ∷ []) q in
        elim (Bool-cases m.pool_started) [
          | inl y ↦
              rw (y, submit)
                (inl (
                  _,
                  refl,
                  created-Extends o r n _ m.world.state (j, i) c grown (λ a b h. h),
                  sym y ∙ p,
                ))
          | inr f ↦ elim (Option-cases (execute_job_occurrence st env ids job o m.world)) [
            | inl d ↦ rw (f, d, submit) (inr (refl, sym p ∙ f))
            | inr ((x, w), d) ↦
                rw (f, d, submit)
                  (inl (
                    _,
                    refl,
                    created-Extends o r n _ m.world.state (j, i) c grown
                        (executed_kept job o m.world w x d),
                    p,
                  ))
          ]
        ]

    work_from :
        (tasks : List (Job × JobOccurrence)) (n m : Node st)
        → n.task_queue ≡ tasks
        → work st env ids n ≡ some m
        → Extends n m
    unfolding work
    work_from [] n m e h =
        let same = some-injective _ _ (rw (e, work) at h) in
        subst (Extends n) same (unchanged n n refl refl)
    work_from ((job, o) ∷ tasks) n m e h =
        elim (Option-cases (execute_job_occurrence st env ids job o n.world)) [
          | inl d ↦ absurd (cc (rw (e, d, work) at h))
          | inr ((x, w), d) ↦
              let ran = record n { world = w; task_queue = tasks } in
              let extended : Extends n ran = record {
                new = [];
                grows = sym (append-nil n.submitted);
                distinct = tt;
                fresh = tt;
                stored = tt;
                kept = executed_kept job o n.world w x d;
              } in
              subst (Extends n) (some-injective _ _ (rw (e, d, work) at h)) extended
        ]

    -- A worker submits nothing.
    pub work-Extends : (n m : Node st) → work st env ids n ≡ some m → Extends n m
    work-Extends n m h = work_from n.task_queue n m refl h
