-- ===== src/Signing.antt =====
-- packages/core/src/signing.ts: the gate before any wallet opens. `Checks` holds the groups of checks and
-- `Validate` the whole validation; `Coverage`, `Gate` and `Effects` what a plan that passes is known to satisfy.
pub mod Checks
pub mod Validate
pub mod Outflow
mod Coverage
mod Gate
mod Effects
mod Examples
