-- ===== src/Worker.antt =====
-- apps/worker/src: what the worker decides of a workflow from chain evidence. `Confirmations` is the
-- code of confirmations.ts and `Reconciliation` that of reconciliation.ts; `Writes` is how
-- packages/database/src/execution.ts stores what they decide.
pub mod Confirmations
pub mod Justified
pub mod Walk
pub mod Reconciliation
pub mod Writes
pub mod Advance
pub mod Claimed
pub mod Stored
pub mod Arrived
pub mod Judged
mod Examples
