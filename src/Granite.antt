-- ===== src/Granite.antt =====
-- packages/adapters/src/granite/creditLifecycle.ts: the life of a supply, a withdrawal, a borrow or a repayment
-- at Granite. `Evidence` is the data; `Sums` what is worked out of it; `Gates` the checks before a signature;
-- `Steps` and `Evaluate` the view. `Permitted`, `States` and `Cleared` hold the laws.
pub mod Evidence
pub mod Sums
pub mod Gates
pub mod Steps
pub mod Evaluate
pub mod Permitted
pub mod States
pub mod Cleared
mod Examples
