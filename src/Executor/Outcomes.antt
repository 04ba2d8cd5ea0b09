-- ===== src/Executor/Outcomes.antt =====
-- The executions of executor/executor.go as a whole: which tasks report, and the status at the end.
use schedule.Base.{ℕ, ◌+◌, arith, ◌≡◌, refl, Option, none, some, ◌∙◌, All, ok, ap}
use schedule.Types.{JobStatus, JobOccurrence, GroupOutcome, ExecutionReport, parallel}
use schedule.Ticker.Window.{Time}
use schedule.Storage.{Storage}
use schedule.Ids.{Formats}
use schedule.Job.{Job}
use schedule.Executor.{Env, World, ask}
use schedule.Executor.Groups.{
  Group, Executed, execute_tasks, update_occurrence_status, final_status, conclude, running_from,
  begun, execute_job_occurrence, call_hook,
}
use schedule.Executor.Finishing.{Finishes, Reported}
use schedule.Executor.Runs.{IsRetriable, InSequence, Summed, Agrees, execute_parallel-Reported}

module _ (st : Storage) (env : Env) (ids : Formats) where
  -- An execution in which the status Running is stored and the tasks end.
  execute_job_occurrence-conclude :
      (job : Job) (occurrence : JobOccurrence) (w : World st) (s : st.State) (g : Group)
      (t : World st)
      → let running = running_from st env ids occurrence (env.clock w.asked) in
        update_occurrence_status st env ids running (ask st env ids w) ≡ ok s
        → execute_tasks st env ids job.config.task_execution_mode job running
            (begun st env ids job running w s)
          ≡ some (g, t)
        → execute_job_occurrence st env ids job occurrence w
          ≡ some (conclude st env ids job running (env.clock w.asked) g t)
  unfolding execute_job_occurrence
  execute_job_occurrence-conclude job occurrence w s g t u p =
      rw (execute_job_occurrence, u, p) refl

  conclude-asked :
      (job : Job) (o : JobOccurrence) (start : Time) (g : Group) (w : World st) (n : ℕ)
      → w.asked ≡ n + 1
      → (conclude st env ids job o start g w).1.asked ≡ n + 4
  unfolding conclude call_hook ask
  conclude-asked job o start g w n h = ground arith

  -- An execution in sequence of the running occurrence from a world on that does not panic, its report and its status at the end.
  abbrev pub EndsInSequence : Job → JobOccurrence → World st → Option (Executed × World st) → Type 0
  EndsInSequence job running w result =
      (x : Executed) × (v : World st) × (report : ExecutionReport) × (outcome : GroupOutcome)
      × (result ≡ some (x, v))
      × (x.report ≡ some report)
      × (report.group_outcome ≡ some outcome)
      × InSequence st env ids job running job.tasks w report.task_reports outcome x.error
      × Agrees x.occurrence.status outcome

  -- An execution in parallel that does not panic, its report and its status at the end. Whether the context
  -- is done is the last question but three.
  abbrev pub EndsInParallel : Job → Option (Executed × World st) → Type 0
  EndsInParallel job result =
      (x : Executed) × (v : World st) × (report : ExecutionReport) × (outcome : GroupOutcome)
      × (question : ℕ) × (result ≡ some (x, v))
      × (v.asked ≡ question + 4)
      × (x.report ≡ some report)
      × (report.group_outcome ≡ some outcome)
      × Reported job.tasks report.task_reports
      × Summed env question report.task_reports outcome
      × (x.occurrence.status ≡ JobStatus.completed)
      × (x.error ≡ none)

  -- Once the status Running is stored, a job whose tasks run in parallel and have no negative number
  -- of retries is executed without a panic, if the order in which the tasks finish is an order of
  -- them. There is one report for each task; the outcome of the group is canceled if the context is
  -- done at the end, and else failed if a report failed, and else completed; yet the status at the end is
  -- Completed and there is no error whatever the outcome is.
  pub execute_job_occurrence-Reported :
      (job : Job) (occurrence : JobOccurrence) (w : World st) (s : st.State)
      → job.config.task_execution_mode ≡ parallel
      → Finishes env
      → All (IsRetriable job) job.tasks
      → update_occurrence_status st env ids
          (running_from st env ids occurrence (env.clock w.asked))
          (ask st env ids w)
        ≡ ok s
      → EndsInParallel job (execute_job_occurrence st env ids job occurrence w)
  unfolding execute_tasks conclude final_status
  execute_job_occurrence-Reported job occurrence w s m finishes all u =
      let running = running_from st env ids occurrence (env.clock w.asked) in
      let (g, v, o, n, p, k, q, each, sum, e) =
        execute_parallel-Reported st env ids job running (begun st env ids job running w s) finishes
          all in
      let all_run =
        ap (λ mode. execute_tasks st env ids mode job running (begun st env ids job running w s)) m
        ∙ p in
      (
        _,
        _,
        g.report,
        o,
        n,
        execute_job_occurrence-conclude job occurrence w s g v u all_run,
        conclude-asked job running (env.clock w.asked) g v n k,
        refl,
        q,
        each,
        sum,
        rw e refl,
        e,
      )
