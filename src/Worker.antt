-- ===== src/Worker.antt =====
-- apps/worker/src/tenant-validation-worker.ts: the worker of tenant validations.
pub mod Dispatch
pub mod Process
pub mod Calls
