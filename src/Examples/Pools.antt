-- ===== src/Examples/Pools.antt =====
-- Runs of a pool with one worker.
use schedule.Base.{◌++◌, ℕ, ◌≡◌, refl, true, false, some, List, [], ◌∷◌, ◌++◌, arith, pos}
use schedule.Pool.{
  WorkerPool, PoolEvent, next, panics, pool_step, run_pool, new_worker_pool, start_workers,
  begin_submit, send_task, receive_task, start_pool, stop_pool, submit_task, send, receive,
}
use schedule.Base.{take_at}
use schedule.Pool.Bounds.{IsBounded, run_pool-IsBounded}
use schedule.Pool.Traces.{Lands}
use schedule.Pool.Bags.{bag_of, bag_run, ended_in, run_pool-bag_run}
use schedule.Pool.Queue.{Served, service, run_pool_refines}
use schedule.Pool.Stopped.{finishing, stop_finishes, restart_panics}

abbrev one_worker : WorkerPool ℕ
one_worker = record {
  max_workers = 1;
  started = false;
  stopping = false;
  closed = false;
  task_queue = [];
  senders = [];
  inline = [];
  waiting = 0;
  busy = [];
  ended = [];
  given_up = [];
}

abbrev calls : List (PoolEvent ℕ)
calls =
    start_pool
    ∷ submit_task 7
    ∷ submit_task 8
    ∷ submit_task 9
    ∷ send 0
    ∷ receive
    ∷ send 1
    ∷ send 0
    ∷ []

-- Three tasks were submitted, and one of them has begun.
abbrev served_one : WorkerPool ℕ
served_one = record one_worker { started = true; task_queue = 9 ∷ 8 ∷ []; busy = 7 ∷ [] }

served_one_runs : run_pool calls one_worker ≡ next served_one
unfolding run_pool pool_step start_workers begin_submit send_task receive_task
served_one_runs = refl

fresh_pool : new_worker_pool (pos 1) ≡ one_worker
unfolding new_worker_pool
fresh_pool = refl

run_pool-IsBounded_example : Lands IsBounded (run_pool calls (new_worker_pool (pos 1)))
run_pool-IsBounded_example = run_pool-IsBounded ℕ (pos 1) calls

-- The tasks 7, 8 and 9 in an order of its own.
run_pool-bag_run_example :
    (bag_of served_one ≡ bag_run calls (bag_of one_worker))
    × (served_one.ended ≡ one_worker.ended ++ ended_in calls one_worker)
run_pool-bag_run_example = run_pool-bag_run calls one_worker served_one served_one_runs

one_worker-IsBounded : IsBounded one_worker
one_worker-IsBounded = (omega arith, omega arith, λ e. refl, λ e. absurd (cc), λ e. absurd (cc))

run_pool_refines_example : Served ℕ (service one_worker) (service served_one)
run_pool_refines_example =
    run_pool_refines calls one_worker served_one one_worker-IsBounded served_one_runs

-- The two tasks of the queue are not run.
stop_finishes_example :
    run_pool (stop_pool ∷ finishing served_one) served_one
    ≡ next (record served_one { started = false; closed = true; busy = []; ended = 7 ∷ [] })
stop_finishes_example = stop_finishes served_one refl refl refl

abbrev stopped : WorkerPool ℕ
stopped = record served_one { started = false; closed = true; busy = []; ended = 7 ∷ [] }

abbrev restarted : WorkerPool ℕ
restarted = record stopped {
  started = true;
  waiting = 0;
  task_queue = 8 ∷ [];
  busy = 9 ∷ [];
  senders = 4 ∷ [];
}

restarted_runs : run_pool (start_pool ∷ submit_task 4 ∷ receive ∷ []) stopped ≡ next restarted
unfolding run_pool pool_step start_workers begin_submit receive_task
restarted_runs = refl

restart_panics_example :
    ((taken : List ℕ) × (9 ∷ 8 ∷ [] ≡ taken ++ 8 ∷ []))
    × ((k task : ℕ) (others : List ℕ)
        → take_at k (4 ∷ []) ≡ some (task, others)
        → pool_step (send k) restarted ≡ panics)
    × (true ≡ true → false ≡ false → pool_step stop_pool restarted ≡ panics)
restart_panics_example =
    restart_panics (start_pool ∷ submit_task 4 ∷ receive ∷ []) stopped restarted refl restarted_runs
