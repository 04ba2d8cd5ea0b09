-- ===== src/Samples.antt =====
-- Values at which the theorems are applied: a database in memory, an encoding of the stored records,
-- tickers and configurations.
pub mod Memory
pub mod Encoding
pub mod JobEncoding
pub mod TaskEncoding
