-- ===== src/Scheduler/Registry.antt =====
-- The map of registered jobs in scheduler/scheduler.go, as a list.
use schedule.Base.{Bool, not, ◌&&◌, Option, none, some, List, [], ◌∷◌, Text, text_eq, if◌then◌else◌}
use schedule.Ticker.Any.{start_ticker, stop_ticker}
use schedule.Job.{Job}

-- `s.jobs[id]`
unfoldable pub find_job : Text → List Job → Option Job
find_job id [] = none
find_job id (j ∷ js) = if text_eq j.id id then some j else find_job id js

-- The job under the same identifier is changed in place.
unfoldable pub replace_job : Job → List Job → List Job
replace_job job [] = []
replace_job job (j ∷ js) = if text_eq j.id job.id then job ∷ js else j ∷ replace_job job js

unfoldable pub is_watched : Job → Bool
is_watched job = job.active && not job.paused

unfoldable pub start_tickers : List Job → List Job
unfolding is_watched
start_tickers [] = []
start_tickers (job ∷ jobs) =
    (if is_watched job then record job { ticker = start_ticker job.ticker } else job)
    ∷ start_tickers jobs

unfoldable pub stop_tickers : List Job → Option (List Job)
stop_tickers [] = some []
stop_tickers (job ∷ jobs) = elim (stop_ticker job.ticker) [
  | none ↦ none
  | some t ↦ elim (stop_tickers jobs) [
    | none ↦ none
    | some rest ↦ some (record job { ticker = t } ∷ rest)
  ]
]
