-- ===== src/Valuation.antt =====
-- packages/core/src/valuation.ts: a price from independent sources (`Readings` and `Quorum`), and the value of a set
-- of holdings (`Portfolio`).
pub mod Readings
pub mod Quorum
pub mod Portfolio
pub mod Totals
mod Examples
pub mod Verdict
pub mod Spread
pub mod Agreement
pub mod Scaled
