-- ===== src/RiskReport.antt =====
-- packages/core/src/riskReport.ts: readings of a loan's health for one protocol, the actions that are
-- safe, stress scenarios, concentration, and the liquidity gate. Bps shifts are integers here.
pub mod Texts
pub mod Health
pub mod Stress
pub mod Concentration
pub mod Safety
pub mod Rows
pub mod Totals
mod Examples
