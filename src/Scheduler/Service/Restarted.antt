-- ===== src/Scheduler/Service/Restarted.antt =====
-- Start and Shutdown of scheduler/scheduler.go, repeated.
use schedule.Base.{
  ◌≡◌, subst, inl, inr, true, Option, none, some, Option-cases, List, [], ◌∷◌, arith, Error,
}
use schedule.Storage.{Storage}
use schedule.Job.{Job}
use schedule.Update.{JobUpdate}
use schedule.Scheduler.Setup.{Scheduler, Outside}
use schedule.Scheduler.Service.{
  register_job, start_scheduler, shutdown, update_registered_job, update_metrics,
}

-- A call of a method.
pub data Call : Type 0 where
  call_register : Job → Call
  call_update : JobUpdate → Call
  call_start call_shutdown call_metrics : Call

module _ (st : Storage) (out : Outside) where
  abbrev state_of : Option (Scheduler st × Option Error) → Option (Scheduler st)
  state_of none = none
  state_of (some (s, e)) = some s

  unfoldable pub serve : Call → Scheduler st → Option (Scheduler st)
  serve (call_register job) s = some (register_job st out job s).0
  serve (call_update u) s = state_of (update_registered_job st out u s)
  serve call_start s = state_of (start_scheduler st out s)
  serve call_shutdown s = shutdown st out s
  serve call_metrics s = some (update_metrics st out s)

  unfoldable pub serve_all : List Call → Scheduler st → Option (Scheduler st)
  serve_all [] s = some s
  serve_all (c ∷ cs) s = elim (serve c s) [ none ↦ none | some t ↦ serve_all cs t ]

  -- The reaper is closed in any state that there is.
  abbrev IsClosed : Option (Scheduler st) → Type 0
  IsClosed none = Unit
  IsClosed (some s) = s.reaper_closed ≡ true

  register_job-IsClosed :
      (job : Job) (s : Scheduler st)
      → s.reaper_closed ≡ true
      → (register_job st out job s).0.reaper_closed ≡ true
  unfolding register_job
  register_job-IsClosed job s h = ground arith

  update_registered_job-IsClosed :
      (u : JobUpdate) (s : Scheduler st)
      → s.reaper_closed ≡ true
      → IsClosed (state_of (update_registered_job st out u s))
  unfolding update_registered_job
  update_registered_job-IsClosed u s h = ground arith

  start_scheduler-IsClosed :
      (s : Scheduler st) → s.reaper_closed ≡ true → IsClosed (state_of (start_scheduler st out s))
  unfolding start_scheduler
  start_scheduler-IsClosed s h = ground arith

  shutdown-IsClosed : (s : Scheduler st) → s.reaper_closed ≡ true → IsClosed (shutdown st out s)
  unfolding shutdown
  shutdown-IsClosed s h = ground arith

  update_metrics-IsClosed :
      (s : Scheduler st) → s.reaper_closed ≡ true → (update_metrics st out s).reaper_closed ≡ true
  unfolding update_metrics
  update_metrics-IsClosed s h = ground arith

  serve-IsClosed : (c : Call) (s : Scheduler st) → s.reaper_closed ≡ true → IsClosed (serve c s)
  unfolding serve
  serve-IsClosed (call_register job) s h = register_job-IsClosed job s h
  serve-IsClosed (call_update u) s h = update_registered_job-IsClosed u s h
  serve-IsClosed call_start s h = start_scheduler-IsClosed s h
  serve-IsClosed call_shutdown s h = shutdown-IsClosed s h
  serve-IsClosed call_metrics s h = update_metrics-IsClosed s h

  serve_all-IsClosed :
      (cs : List Call) (s : Scheduler st) → s.reaper_closed ≡ true → IsClosed (serve_all cs s)
  unfolding serve_all
  serve_all-IsClosed [] s h = h
  serve_all-IsClosed (c ∷ cs) s h = elim (Option-cases (serve c s)) [
    | inl d ↦ rw (d, serve_all) tt
    | inr (t, d) ↦
        rw (d, serve_all) (serve_all-IsClosed cs t (subst IsClosed d (serve-IsClosed c s h)))
  ]

  shutdown-closes :
      (s t : Scheduler st) → s.running ≡ true → shutdown st out s ≡ some t → t.reaper_closed ≡ true
  unfolding shutdown
  shutdown-closes s t r h = ground arith

  closed_panics :
      (s : Scheduler st) → s.running ≡ true → s.reaper_closed ≡ true → shutdown st out s ≡ none
  unfolding shutdown
  closed_panics s r c = ground arith

  -- A scheduler is shut down at most once: after a Shutdown of a scheduler that runs, and any calls of its
  -- methods in any order, a second Shutdown of the scheduler, if it runs again, panics.
  pub second_shutdown_panics :
      (s t u : Scheduler st) (cs : List Call)
      → s.running ≡ true
      → shutdown st out s ≡ some t
      → serve_all cs t ≡ some u
      → u.running ≡ true
      → shutdown st out u ≡ none
  second_shutdown_panics s t u cs r h run again =
      closed_panics u again (subst IsClosed run (serve_all-IsClosed cs t (shutdown-closes s t r h)))
