-- ===== src/Sbtc.antt =====
-- packages/adapters/src/sbtc: the lives of a withdrawal and of a deposit of sBTC, rebuilt from the evidence of
-- the signers, Bitcoin and Stacks. `Fields` and `Unknown` hold the checks of fields that both share.
-- withdrawalLifecycle.ts is `EmilyWithdrawals`, `Withdrawal`, `Mismatches`, `Warnings` and `Evaluate`, with its laws
-- in `Agreement`, `Accounts` and `Settled`; depositLifecycle.ts is `EmilyDeposits`, `Deposit`, `DepositChecks` and
-- `Deposited`, with its laws in `Grounds` and `Minted`.
pub mod Fields
pub mod Withdrawal
pub mod Unknown
pub mod EmilyWithdrawals
pub mod Mismatches
pub mod Warnings
pub mod Evaluate
pub mod Agreement
pub mod Accounts
pub mod Settled
pub mod Deposit
pub mod EmilyDeposits
pub mod DepositChecks
pub mod Deposited
pub mod Grounds
pub mod Minted
mod Examples
mod EmilyExamples
mod DepositExamples
