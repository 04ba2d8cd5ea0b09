-- ===== src/Recovery/Once.antt =====
-- A recovery of recovery/recovery.go submits what was not stored, once.
use schedule.Base.{
  ◌≡◌, refl, Bool-cases, some, Option-cases, Result-cases, inl, inr, List, [], ◌∷◌, Text, is_pos,
  codes,
}
use schedule.Ticker.Window.{Time}
use schedule.Types.{
  RecoveryStrategy, execute_all, execute_last, mark_as_missed, bounded_window, compressed_catch_up,
  other_recovery,
}
use schedule.Storage.{Storage}
use schedule.Ids.{Formats}
use schedule.Job.{Job}
use schedule.Executor.{Env}
use schedule.Dispatch.{Node}
use schedule.Dispatch.Creates.{CreatesOnce}
use schedule.Dispatch.Once.{Ends, Ends-then, unchanged, submit_created}
use schedule.Recovery.{
  recovery_occurrence, ask_twice, stored_recovery, schedule_recovery_run, run_all, run_last,
  run_bounded, by_strategy, apply_strategy, last, recent, latest,
}

module _ (st : Storage) (once : CreatesOnce st) (env : Env) (ids : Formats) where
  stays : (n : Node st) → Ends st once n (some n)
  stays n = inl (n, refl, unchanged st once n n refl refl, refl)

  pub schedule_recovery_run-Ends :
      (strategy : Text) (job : Job) (t : Time) (n : Node st)
      → Ends st once n (schedule_recovery_run st env ids strategy job t n)
  unfolding schedule_recovery_run ask_twice stored_recovery recovery_occurrence
  schedule_recovery_run-Ends strategy job t n =
      elim (Result-cases (
        st.create_job_occurrence (stored_recovery (recovery_occurrence st env ids job t n))
          n.world.state)) [
            | inl (s, c) ↦
                rw (c, schedule_recovery_run)
                  (submit_created st once env ids job (recovery_occurrence st env ids job t n)
                    (stored_recovery (recovery_occurrence st env ids job t n)) n _ (refl, refl) c
                    (refl, refl))
            | inr (e, c) ↦
                rw (c, schedule_recovery_run) (inl (_, refl, unchanged st once n _ refl refl, refl))
          ]

  run_all-Ends :
      (job : Job) (ts : List Time) (n : Node st) → Ends st once n (run_all st env ids job ts n)
  unfolding run_all
  run_all-Ends job [] n = stays n
  run_all-Ends job (t ∷ ts) n =
      Ends-then st once n (schedule_recovery_run st env ids (codes "full_backfill") job t n)
        (λ m. run_all st env ids job ts m) (schedule_recovery_run-Ends _ job t n)
        (λ m. run_all-Ends job ts m)

  run_last-Ends :
      (job : Job) (ts : List Time) (n : Node st) → Ends st once n (run_last st env ids job ts n)
  unfolding run_last
  run_last-Ends job ts n = elim (Option-cases (last ts)) [
    | inl e ↦ rw (e, run_last) (stays n)
    | inr (t, e) ↦ rw (e, run_last) (schedule_recovery_run-Ends _ job t n)
  ]

  run_bounded-Ends :
      (job : Job) (ts : List Time) (n : Node st) → Ends st once n (run_bounded st env ids job ts n)
  unfolding run_bounded
  run_bounded-Ends job ts n = elim (Option-cases job.config.bounded_window) [
    | inl e ↦ rw (e, run_bounded) (run_all-Ends job ts n)
    | inr (w, e) ↦
        let chosen = latest w (recent w (env.clock n.world.asked) ts) in
        let from = λ (m : Node st). run_all st env ids job chosen m in
        elim (Bool-cases (is_pos w.max_duration)) [
          | inl y ↦
              rw (e, y, run_bounded)
                (Ends-then st once n (some _) from
                  (inl (_, refl, unchanged st once n _ refl refl, refl))
                  (λ m. run_all-Ends job chosen m))
          | inr f ↦ rw (e, f, run_bounded) (run_all-Ends job chosen n)
        ]
  ]

  by_strategy-Ends :
      (strategy : RecoveryStrategy) (job : Job) (ts : List Time) (n : Node st)
      → job.config.recovery_strategy ≡ strategy
      → Ends st once n (by_strategy st env ids job ts n)
  unfolding by_strategy
  by_strategy-Ends execute_all job ts n e = rw (e, by_strategy) (run_all-Ends job ts n)
  by_strategy-Ends execute_last job ts n e = rw (e, by_strategy) (run_last-Ends job ts n)
  by_strategy-Ends mark_as_missed job ts n e = rw (e, by_strategy) (stays n)
  by_strategy-Ends bounded_window job ts n e = rw (e, by_strategy) (run_bounded-Ends job ts n)
  by_strategy-Ends compressed_catch_up job ts n e = rw (e, by_strategy) (run_all-Ends job ts n)
  by_strategy-Ends other_recovery job ts n e = rw (e, by_strategy) (run_all-Ends job ts n)

  -- ApplyStrategy, over a storage that creates an occurrence once, ends with its submits made, or
  -- panics in an execution if the pool is not started. The occurrences that it submits are all
  -- different, none of them was stored before, all are stored afterwards, and nothing stored is lost.
  pub apply_strategy-Ends :
      (job : Job) (ts : List Time) (n : Node st)
      → Ends st once n (apply_strategy st env ids job ts n)
  unfolding apply_strategy
  apply_strategy-Ends job [] n = stays n
  apply_strategy-Ends job (t ∷ ts) n = by_strategy-Ends _ job (t ∷ ts) n refl
