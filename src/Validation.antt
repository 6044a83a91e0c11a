-- ===== src/Validation.antt =====
-- packages/product/src/tenant-validation.ts: the operations on tenant-validation jobs, one child
-- module for each; `Base` has what they share.
pub mod Base
pub mod Start
pub mod Jobs
pub mod Lookup
pub mod Lease
pub mod Recovery
pub mod Apply
