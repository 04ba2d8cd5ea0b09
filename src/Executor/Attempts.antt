-- ===== src/Executor/Attempts.antt =====
-- The retries of executor/executor.go: which attempts a task makes, and its final status.
use schedule.Base.{
  ℕ, zero, suc, ◌+◌, Bool, ◌≤◌, ◌≡◌, refl, ◌⊎◌, inl, inr, true, false, Option, some, List, [], ◌∷◌,
  ◌++◌, ◌∙◌, append_assoc, length, arith, Bool-cases, after, subst, sym,
}
use schedule.Types.{TaskStatus, AttemptReport, TaskReport, TaskConfig, JobOccurrence}
use schedule.Storage.{Storage, TaskRun}
use schedule.Ids.{Formats}
use schedule.Job.{Task, Job, get_effective_config}
use schedule.Executor.{
  Env, World, is_success, retries, execute_attempt, try_attempts, execute_task, new_run, is_done,
  ask,
}

-- The attempts of a task from number n on: all but the last fail, and they are numbered in order.
abbrev pub Attempted : ℕ → TaskStatus → List AttemptReport → Type 0
Attempted n final [] = ⊥
Attempted n final (r ∷ []) =
    (r.attempt_number ≡ n)
    × ((final ≡ TaskStatus.success) × (is_success r.status ≡ true)
        ⊎ ((is_success final ≡ false) × (is_success r.status ≡ false)))
Attempted n final (r ∷ s ∷ rs) =
    (r.attempt_number ≡ n) × (is_success r.status ≡ false) × Attempted (suc n) final (s ∷ rs)

-- With k retries: at most k + 1 attempts, and k + 1 if the task failed.
pub record IsRetried (k n : ℕ) (final : TaskStatus) (rs : List AttemptReport) : Type 0 where
  pub attempted : Attempted n final rs
  pub at_most : length rs ≤ suc k
  pub exhausted : final ≡ TaskStatus.failed → length rs ≡ suc k
  pub ended :
      (final ≡ TaskStatus.success) ⊎ ((final ≡ TaskStatus.failed) ⊎ (final ≡ TaskStatus.canceled))

single_success :
    (k n : ℕ) (r : AttemptReport)
    → r.attempt_number ≡ n
    → is_success r.status ≡ true
    → IsRetried k n TaskStatus.success (r ∷ [])
single_success k n r e y = record {
  attempted = (e, inl (refl, y));
  at_most = omega arith;
  exhausted = λ p. absurd (cc);
  ended = inl refl;
}

single_failed :
    (n : ℕ) (r : AttemptReport)
    → r.attempt_number ≡ n
    → is_success r.status ≡ false
    → IsRetried 0 n TaskStatus.failed (r ∷ [])
single_failed n r e y = record {
  attempted = (e, inr (refl, y));
  at_most = omega arith;
  exhausted = λ p. refl;
  ended = inr (inl refl);
}

single_canceled :
    (k n : ℕ) (r : AttemptReport)
    → r.attempt_number ≡ n
    → is_success r.status ≡ false
    → IsRetried k n TaskStatus.canceled (r ∷ [])
single_canceled k n r e y = record {
  attempted = (e, inr (refl, y));
  at_most = omega arith;
  exhausted = λ p. absurd (cc);
  ended = inr (inr refl);
}

one_more :
    (k n : ℕ) (final : TaskStatus) (r : AttemptReport) (rs : List AttemptReport)
    → r.attempt_number ≡ n
    → is_success r.status ≡ false
    → IsRetried k (suc n) final rs
    → IsRetried (suc k) n final (r ∷ rs)
one_more k n final r [] e y i = absurd i.attempted
one_more k n final r (s ∷ rs) e y i = record {
  attempted = (e, y, i.attempted);
  at_most = omega (arith, i.at_most);
  exhausted = λ p. omega (arith, i.exhausted p);
  ended = i.ended;
}

-- The context at a question, and the context of a group that a task may have cancelled.
abbrev pub ContextDone : Env → Bool → ℕ → Type 0
ContextDone env cancelled question = (env.context_done question ≡ true) ⊎ (cancelled ≡ true)

abbrev pub ContextLive : Env → Bool → ℕ → Type 0
ContextLive env cancelled question = (env.context_done question ≡ false) × (cancelled ≡ false)

-- Between two attempts the context was live, and after the last of a canceled task it was done. An
-- attempt asks four questions, and a wait the one whether the context is done.
abbrev pub Waited : Env → Bool → ℕ → TaskStatus → List AttemptReport → Type 0
Waited env cancelled question final [] = ⊥
Waited env cancelled question final (r ∷ []) =
    ((final ≡ TaskStatus.canceled) × ContextDone env cancelled question)
    ⊎ (¬ (final ≡ TaskStatus.canceled))
Waited env cancelled question final (r ∷ s ∷ rs) =
    ContextLive env cancelled question × Waited env cancelled (question + 5) final (s ∷ rs)

Waited-more :
    (env : Env) (cancelled : Bool) (question : ℕ) (final : TaskStatus) (r : AttemptReport)
    (rs : List AttemptReport)
    → ContextLive env cancelled question
    → Waited env cancelled (question + 5) final rs
    → Waited env cancelled question final (r ∷ rs)
Waited-more env cancelled question final r [] l h = absurd h
Waited-more env cancelled question final r (s ∷ rs) l h = (l, h)

module _ (st : Storage) (env : Env) (ids : Formats) where
  pub is_done-true :
      (w : World st) → is_done st env ids w ≡ true → ContextDone env w.group_cancelled w.asked
  unfolding is_done
  is_done-true w h = ground arith

  pub is_done-false :
      (w : World st) → is_done st env ids w ≡ false → ContextLive env w.group_cancelled w.asked
  unfolding is_done
  is_done-false w h = ground arith

  -- An attempt asks four questions and cancels no group.
  execute_attempt-asked :
      (job : Job) (task : Task) (run : TaskRun) (n : ℕ) (config : TaskConfig) (w : World st)
      → ((execute_attempt st env ids job task run n config w).1.asked ≡ w.asked + 4)
        × ((execute_attempt st env ids job task run n config w).1.group_cancelled
            ≡ w.group_cancelled)
  unfolding execute_attempt
  execute_attempt-asked job task run n config w = (refl, refl)

  attempt_number-execute :
      (job : Job) (task : Task) (run : TaskRun) (n : ℕ) (config : TaskConfig) (w : World st)
      → (execute_attempt st env ids job task run n config w).0.attempt_number ≡ n
  unfolding execute_attempt
  attempt_number-execute job task run n config w = refl

  -- What the loop returns, after the attempts that are done.
  abbrev Tried :
      ℕ → ℕ → List AttemptReport → World st → TaskStatus × List AttemptReport × World st → Type 0
  Tried k n done w t =
      (rs : List AttemptReport) × (t.1 ≡ done ++ rs)
      × IsRetried k n t.0 rs
      × Waited env w.group_cancelled (w.asked + 4) t.0 rs

  try_attempts-IsRetried :
      (job : Job) (task : Task) (run : TaskRun) (config : TaskConfig) (k n : ℕ)
      (done : List AttemptReport) (w : World st)
      → Tried k n done w (try_attempts st env ids job task run config k n done w)
  unfolding try_attempts execute_attempt ask
  try_attempts-IsRetried job task run config zero n done w =
      let (r, v) = execute_attempt st env ids job task run n config w in
      let e = attempt_number-execute job task run n config w in
      elim (Bool-cases (is_success r.status)) [
        | inl y ↦ rw y (r ∷ [], refl, single_success 0 n r e y, inr (λ c. cc))
        | inr f ↦ rw f (r ∷ [], refl, single_failed n r e f, inr (λ c. cc))
      ]
  try_attempts-IsRetried job task run config (suc k) n done w =
      let (r, v) = execute_attempt st env ids job task run n config w in
      let e = attempt_number-execute job task run n config w in
      elim (Bool-cases (is_success r.status)) [
        | inl y ↦ rw y (r ∷ [], refl, single_success (suc k) n r e y, inr (λ c. cc))
        | inr f ↦ rw f (elim (Bool-cases (is_done st env ids v)) [
          | inl d ↦
              rw d (r ∷ [], refl, single_canceled (suc k) n r e f, inl (refl, is_done-true v d))
          | inr g ↦
              let again =
                try_attempts st env ids job task run config k (suc n) (done ++ r ∷ [])
                  (ask st env ids v) in
              let (rs, q, i, l) =
                try_attempts-IsRetried job task run config k (suc n) (done ++ r ∷ [])
                  (ask st env ids v) in
              rw g (
                r ∷ rs,
                q ∙ append_assoc done (r ∷ []) rs,
                one_more k n _ r rs e f i,
                Waited-more env w.group_cancelled (w.asked + 4) _ r rs (is_done-false v g)
                    (subst (λ m. Waited env w.group_cancelled m again.0 rs) (omega arith) l),
              )
        ])
      ]

  -- A run of a task that does not panic, with its report.
  abbrev pub EndsRetried : Task → ℕ → World st → Option (TaskReport × World st) → Type 0
  EndsRetried task k w result =
      (report : TaskReport) × (v : World st) × (result ≡ some (report, v))
      × (report.task_id ≡ task.id)
      × IsRetried k 0 report.final_status report.attempts
      × Waited env w.group_cancelled (w.asked + 5) report.final_status report.attempts

  -- A task with k retries makes its attempts one after another, numbered from 0, up to the first
  -- that succeeds, which is the last: at most k + 1 of them, and k + 1 if the task failed. It succeeds
  -- if and only if the last attempt does, and else fails or is canceled. It is canceled only if its
  -- context is done, or its group cancelled, at the wait after its last attempt, and at the waits
  -- before neither was so.
  pub execute_task-IsRetried :
      (job : Job) (task : Task) (occurrence : JobOccurrence) (w : World st) (k : ℕ)
      → retries (get_effective_config job task).retry_policy ≡ some k
      → EndsRetried task k w (execute_task st env ids job task occurrence w)
  unfolding execute_task ask
  execute_task-IsRetried job task occurrence w k h =
      let run = new_run st env ids task occurrence w in
      let v = record (ask st env ids w) {
        state = after w.state (st.create_task_run run w.state);
      } in
      let tried = try_attempts st env ids job task run (get_effective_config job task) k 0 [] v in
      let (rs, q, i, l) =
        try_attempts-IsRetried job task run (get_effective_config job task) k 0 [] v in
      rw (h, execute_task)
        (
          _,
          _,
          refl,
          refl,
          subst (IsRetried k 0 _) (sym q) i,
          subst (Waited env w.group_cancelled (w.asked + 5) _) (sym q)
              (subst (λ m. Waited env w.group_cancelled m tried.0 rs) (omega arith) l),
        )
