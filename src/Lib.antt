-- ===== src/Lib.antt =====
-- A verification library of the job scheduler (package jobistemer, module
-- github.com/ahmed-com/schedule).
--
-- The program. A scheduler runs jobs. A job has tasks and a ticker, which sends the times at which
-- the job is due. The scheduler creates a record of each occurrence in a storage that several
-- nodes share; whoever creates it hands it to a pool of workers, which execute its tasks with
-- retries and store what came of them. Occurrences that were missed are recovered, and those that
-- run for too long are reaped.
--
-- The parts and their files.
--   * Base: numbers, tests, lists, texts and results; the lemmas that the parts share. A text is the list
--     of its bytes. A Go error is a constructor of Error for each place that makes one.
--   * Ticker (ticker/ticker.go, ticker/iso8601.go, ticker/cron.go, ticker/once.go): Window is isWithinWindow and the time
--     zone, Control the Start, Stop, Pause, Resume and channels that the three tickers repeat word for
--     word. Iso8601, Cron and Once are the three tickers: GetOccurrencesBetween by clauses, and in their
--     Loop the goroutines as a state machine whose steps interleave with the calls. Any is the interface.
--   * Types, Job, Ids (types.go, job.go, id/id.go): the data, the configuration of a task, identifiers.
--   * Storage (storage/storage.go): the records that are stored, and the interface as a record.
--   * Badger (storage/badger/badger.go): the methods over a database. Records has the four shapes that
--     the methods repeat, Operations the methods, Occurrences and Once what they promise. Jobs holds the
--     job methods against a table, Tasks is about the search for a key by its end.
--   * Executor (executor/executor.go): one attempt, the retries, a task; in Groups the tasks of an
--     occurrence in sequence or in parallel and ExecuteJobOccurrence. Attempts, Finishing, Runs,
--     Outcomes, Kept and Reported have their theorems.
--   * Pool (concurrency/pool.go): the pool as a state machine of calls and goroutines. Dispatch is what
--     the scheduler uses of it: how an execution is submitted and taken by a worker; Pooled compares both.
--   * Recovery, Reaper (recovery/recovery.go, recovery/reaper.go) and Metrics (metrics/metrics.go).
--   * Update (update/update.go): ApplyUpdate with its policies, in Version what it leaves after an error,
--     in Diff the difference of two schedules.
--   * Scheduler (scheduler/scheduler.go): the handler of a tick; Setup has the state and NewScheduler, Service the
--     methods RegisterJob, Start, Shutdown, UpdateJob and updateMetrics, Registry the map of jobs, Tasks the
--     map of tasks of an update; Cluster runs the ticks, recoveries, workers and reapers of several schedulers over one
--     storage in any order.
--   * Samples and Examples: a database in memory with an encoding, tests, and each theorem at an input.
--
-- How the code corresponds. A function keeps its name in snake case, a struct is a record and an
-- enumeration a data type, with one more constructor where the code meets any other text. A method
-- that changes its receiver takes the state and returns the new one; a nil pointer is none. Time
-- is the count of nanoseconds since the zero time of Go, a natural number; a duration is an
-- integer where the code tests its sign. Counters and versions have no bound, save where a sum of
-- times wraps. Each question to the clock or to a context is numbered, and the environment Env
-- answers it. A panic of the Go runtime is none (in the executor and all that runs it), panicked
-- (in a ticker) or panics (in the pool).
--
-- What is a parameter. Badger is a record of get, set, delete and iterate with its documented
-- laws, and encoding/json a pair of functions of which the theorems ask that decoding undoes
-- encoding. The schedules of robfig/cron, time.LoadLocation, uuid.NewSHA1 with the RFC 3339 form
-- of a time, and the functions of the user (tasks and hooks, as handles) are parameters too, and
-- so are the orders in which Go ranges over a map and in which the tasks of a group finish, of
-- which the theorem on all reports asks that it is an order of the tasks. The storage of the
-- executor and the scheduler is any, with the laws of CreatesOnce where a theorem needs them,
-- which Badger fills.
--
-- Loops. Loops over lists are structural recursion. GetOccurrencesBetween runs on fuel of one
-- round more than the limit of 10000 rounds that the code has, so that the code's own test ends
-- it. The retries of a task are recursion on the number that is left. The goroutines of a parallel
-- group run one after another, in any order of their ends; their interleaving within a task is not
-- modelled, nor are the wait between attempts, locks, and the contexts that storage methods
-- ignore.
--
-- Not modelled: the demonstration in examples/, which prints what the library does; the collector
-- of metrics that does nothing; the wait of Shutdown for the goroutines that watch tickers. Jobs
-- share no tickers and no tasks.
pub mod Base
pub mod Ticker
pub mod Types
pub mod Storage
pub mod Badger
mod Samples
mod Examples
pub mod Ids
pub mod Job
pub mod Metrics
pub mod Executor
pub mod Pool
pub mod Dispatch
pub mod Recovery
pub mod Scheduler
pub mod Reaper
pub mod Update
