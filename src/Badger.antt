-- ===== src/Badger.antt =====
-- storage/badger/badger.go over the two packages that it calls: the database Badger and
-- encoding/json. The operations are in `Operations`, what they guarantee in the other children.
pub mod Database
pub mod Records
pub mod Keys
pub mod Operations
pub mod Occurrences
pub mod Once
pub mod Jobs
pub mod Tasks
