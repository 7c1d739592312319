-- ===== src/Accounting.antt =====
-- packages/core/src/accounting.ts: assets, debts and net worth of a portfolio.
pub mod Entries
pub mod Ledger
pub mod Net
mod Examples
