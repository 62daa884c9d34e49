-- ===== src/Examples.antt =====
-- Concrete packages that meet the assumptions of External, and the theorems at concrete inputs.
pub mod Trees
pub mod Packages
mod StoreRuns
mod CheckRuns
mod TracerRuns
mod SchedulerRuns
mod SerialRuns
mod SequentialRuns
mod PoolRuns
mod ProcessorRuns
mod StorageRuns
