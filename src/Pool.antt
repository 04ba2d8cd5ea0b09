-- ===== src/Pool.antt =====
-- concurrency/pool.go as a state machine: an event is a call, or one step of a goroutine, and the
-- events come in any order. The mutex is held by one call only for long, a Stop that waits for the
-- workers. A task is a value of any type.
pub mod Bounds
pub mod Traces
pub mod Conserved
pub mod Bags
pub mod Queue
pub mod Stopped
use schedule.Base.{
  take_at, ℕ, zero, suc, ◌+◌, ◌-◌, ◌*◌, Bool, true, false, ◌&&◌, ◌||◌, not, Option, none, some,
  List, [], ◌∷◌, ◌++◌, length, ltb, ◌==◌, if◌then◌else◌, ℤ, pos, is_pos, pos_part,
}

module _ (A : Type 0) where
  -- The fields of the struct; `closed` says that Stop has closed both of its channels, and
  -- `stopping` that a Stop waits. Then the goroutines: the calls of Submit at their select, the tasks that
  -- callers run themselves, the workers at their select and the tasks that workers run. The last two
  -- are the tasks that have ended and those that a call gave up.
  pub record WorkerPool : Type 0 where
    pub max_workers : ℕ
    pub started : Bool
    pub stopping : Bool
    pub closed : Bool
    pub task_queue : List A
    pub senders : List A
    pub inline : List A
    pub waiting : ℕ
    pub busy : List A
    pub ended : List A
    pub given_up : List A

  pub data PoolEvent : Type 0 where
    start_pool stop_pool stop_returns : PoolEvent
    submit_task : A → PoolEvent
    -- a Submit that waits at its select sends its task, or sees that the pool is stopped
    send give_up : ℕ → PoolEvent
    -- a worker receives a task, ends it, or returns
    receive leave : PoolEvent
    end_task end_inline : ℕ → PoolEvent

  -- An event that cannot happen now is blocked.
  pub data PoolOutcome : Type 0 where
    next : WorkerPool → PoolOutcome
    blocked panics : PoolOutcome

default_workers : ℕ
default_workers = 10

module _ {A : Type 0} where
  unfoldable pub new_worker_pool : ℤ → WorkerPool A
  unfolding default_workers
  new_worker_pool n = record {
    max_workers = if is_pos n then pos_part n else default_workers;
    started = false;
    stopping = false;
    closed = false;
    task_queue = [];
    senders = [];
    inline = [];
    waiting = 0;
    busy = [];
    ended = [];
    given_up = [];
  }

  -- The size that the channel is made with.
  abbrev pub capacity : WorkerPool A → ℕ
  capacity p = p.max_workers * 2

  unfoldable pub queue_length : WorkerPool A → ℕ
  queue_length p = length p.task_queue

  unfoldable pub start_workers : WorkerPool A → PoolOutcome A
  start_workers p =
      if p.stopping
      then blocked
      else (if p.started
          then next p
          else next (record p { started = true; waiting = p.waiting + p.max_workers }))

  -- Submit up to its select, or to the task that it calls itself.
  unfoldable pub begin_submit : A → WorkerPool A → PoolOutcome A
  begin_submit task p =
      if p.stopping
      then blocked
      else (if p.started
          then next (record p { senders = p.senders ++ task ∷ [] })
          else next (record p { inline = p.inline ++ task ∷ [] }))

  -- The send of a select panics if it is chosen and the channel is closed.
  unfoldable pub send_task : ℕ → WorkerPool A → PoolOutcome A
  send_task k p = elim (take_at k p.senders) [
    | none ↦ blocked
    | some (task, others) ↦
        if p.closed
        then panics
        else (if ltb (length p.task_queue) (capacity p)
            then next (record p { senders = others; task_queue = p.task_queue ++ task ∷ [] })
            else blocked)
  ]

  unfoldable pub see_stopped : ℕ → WorkerPool A → PoolOutcome A
  see_stopped k p = elim (take_at k p.senders) [
    | none ↦ blocked
    | some (task, others) ↦
        if p.closed
        then next (record p { senders = others; given_up = p.given_up ++ task ∷ [] })
        else blocked
  ]

  -- The loop of a worker: a closed channel still gives the tasks that it holds.
  unfoldable pub receive_task : WorkerPool A → PoolOutcome A
  receive_task p = elim p.waiting [
    | zero ↦ blocked
    | suc others ↦ elim p.task_queue [
      | [] ↦ blocked
      | task ∷ tasks ↦
          next (record p { waiting = others; task_queue = tasks; busy = p.busy ++ task ∷ [] })
    ]
  ]

  unfoldable pub worker_returns : WorkerPool A → PoolOutcome A
  worker_returns p = elim p.waiting [
    | zero ↦ blocked
    | suc others ↦ if p.closed then next (record p { waiting = others }) else blocked
  ]

  unfoldable pub worker_ends : ℕ → WorkerPool A → PoolOutcome A
  worker_ends k p = elim (take_at k p.busy) [
    | none ↦ blocked
    | some (task, others) ↦
        next (record p { busy = others; waiting = suc p.waiting; ended = p.ended ++ task ∷ [] })
  ]

  unfoldable pub inline_ends : ℕ → WorkerPool A → PoolOutcome A
  inline_ends k p = elim (take_at k p.inline) [
    | none ↦ blocked
    | some (task, others) ↦ next (record p { inline = others; ended = p.ended ++ task ∷ [] })
  ]

  -- Stop up to its Wait; closing a closed channel panics.
  unfoldable pub begin_stop : WorkerPool A → PoolOutcome A
  begin_stop p =
      if p.stopping
      then blocked
      else (if p.started
          then (if p.closed then panics else next (record p { stopping = true; closed = true }))
          else next p)

  unfoldable pub end_stop : WorkerPool A → PoolOutcome A
  end_stop p =
      if p.stopping && (p.waiting + length p.busy == 0)
      then next (record p { stopping = false; started = false })
      else blocked

  unfoldable pub pool_step : PoolEvent A → WorkerPool A → PoolOutcome A
  pool_step start_pool p = start_workers p
  pool_step stop_pool p = begin_stop p
  pool_step stop_returns p = end_stop p
  pool_step (submit_task task) p = begin_submit task p
  pool_step (send k) p = send_task k p
  pool_step (give_up k) p = see_stopped k p
  pool_step receive p = receive_task p
  pool_step leave p = worker_returns p
  pool_step (end_task k) p = worker_ends k p
  pool_step (end_inline k) p = inline_ends k p

  unfoldable pub run_pool : List (PoolEvent A) → WorkerPool A → PoolOutcome A
  run_pool [] p = next p
  run_pool (e ∷ es) p = elim (pool_step e p) [
    | next q ↦ run_pool es q
    | blocked ↦ blocked
    | panics ↦ panics
  ]
