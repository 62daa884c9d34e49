-- ===== src/External.antt =====
-- The packages that the program only calls, as records of operations with the documented laws.
pub mod BTree
pub mod Kaia
pub mod Evm
pub mod Chain
pub mod Ledger
