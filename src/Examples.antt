-- ===== src/Examples.antt =====
-- Tests, and the theorems at concrete inputs.
mod Tickers
mod Timers
mod Upcoming
mod Stores
mod Jobs
mod Schedulers
mod Collected
mod Updates
mod Pools
mod Pooled
mod Services
mod Tables
mod Reapers
