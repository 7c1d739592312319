-- ===== src/Lib.antt =====
-- CapitalOS: the core of a platform that plans, signs, follows and values positions on Bitcoin and Stacks.
--
-- The program's pure core stands in packages/core/src. A quote (quote.ts) names what goes in and what
-- comes out; a plan (plan.ts) turns it into unsigned steps; the signing gate (signing.ts) checks the plan
-- against the quote before a wallet opens; a workflow (workflow.ts) follows the signed steps until they are
-- reconciled, and borrowSafety.ts says what is kept of a plan that stops half way. risk.ts and
-- riskReport.ts judge a loan by oracle prices, valuation.ts reconciles price readings and values
-- holdings, accounting.ts nets assets and debts, performance.ts attributes yield, and ingestion.ts
-- keeps the chain as it was observed. errors.ts, network.ts, ids.ts and amounts.ts are what these share.
-- Around it, the registry (packages/config/src) says what may be executed where, the adapter
-- of sBTC (packages/adapters/src/sbtc) rebuilds the lives of deposits and withdrawals from their evidence, that of
-- Granite (packages/adapters/src/granite) the life of a credit action, and the worker
-- (apps/worker/src) moves stored workflows on by chain evidence.
--
-- Files, with the code that each models:
--   Errors        packages/core/src/errors.ts, and the results of calls that throw
--   Network, Ids  packages/core/src/network.ts and ids.ts; Ids/RoundTrip holds a law
--   Amounts       packages/core/src/amounts.ts; MulDiv and Texts hold its laws, Units its decimal units
--   Workflow      packages/core/src/workflow.ts: States and Moves are the code; Calls any sequence of calls;
--                 Route, Outcomes, Progress and Answers the laws
--   BorrowSafety  packages/core/src/borrowSafety.ts, with its laws in Partial
--   Plan          packages/core/src/plan.ts and quote.ts
--   Signing       packages/core/src/signing.ts: Checks and Validate are the code; Outflow, Coverage,
--                 Gate and Effects the laws
--   Risk          packages/core/src/risk.ts, with its laws in Bounds and Liquidation
--   RiskReport    packages/core/src/riskReport.ts: Texts, Health, Stress and Concentration are the code;
--                 Safety, Rows and Totals the laws
--   Valuation     packages/core/src/valuation.ts: Readings, Quorum and Portfolio are the code; Spread,
--                 Agreement, Scaled, Verdict and Totals the laws
--   Accounting    packages/core/src/accounting.ts: Entries and Ledger are the code, Net the laws
--   Performance   packages/core/src/performance.ts: Shares, Attribution, Projection and Chart are the code;
--                 Rounding, Yield, Verified and Points the laws
--   Ingestion     packages/core/src/ingestion.ts, with its laws in Reorg and Orphans
--   Registry      packages/config/src: Deployments is deployments.ts, over any tables; Canonical, Signed and
--                 Validate are signedRegistry.ts; Sound and Modes the laws
--   Sbtc          packages/adapters/src/sbtc: Fields and Unknown the checks of fields; of withdrawalLifecycle.ts
--                 EmilyWithdrawals, Withdrawal, Mismatches, Warnings and Evaluate are the code, Agreement,
--                 Accounts and Settled the laws; of depositLifecycle.ts EmilyDeposits, Deposit,
--                 DepositChecks and Deposited are the code, Grounds and Minted the laws
--   Granite       packages/adapters/src/granite/creditLifecycle.ts: Evidence, Sums, Gates, Steps and
--                 Evaluate are the code, Permitted, States and Cleared the laws; of reads.ts the snapshots that it uses
--   Worker        apps/worker/src: Confirmations and Advance are confirmations.ts, Reconciliation is
--                 reconciliation.ts, Writes the guarded write of packages/database/src/execution.ts;
--                 Justified, Walk, Claimed, Stored, Arrived and Judged the laws
--   Shared        numbers, lists, maps and texts as JavaScript has them
-- Every part with laws has its runs on concrete inputs in child modules named for examples.
--
-- How the code is read. A function's name here is the code's in snake case. BigInt is an unbounded signed
-- integer, whose division truncates; counts, heights and scales, which the code keeps in small JavaScript
-- numbers, are natural numbers or integers. A string is the list of its UTF-16 units. A call that may throw
-- returns a Result: the value, or the CapitalError or plain Error that was thrown. A field that may be
-- undefined or null is an Option. Maps and sets are lists in insertion order. What the code reads from its
-- surroundings is an argument: the clock, Date.parse, the texts of dates. No function here needs fuel: every
-- loop of the code runs over a list or over the digits of a number.
--
-- Not modelled: wire.ts and datapoint.ts of the core, which convert between forms of the same data; the
-- adapters of swaps and of earning, whose views follow the pattern of the credit adapter, and the plans that
-- the adapters build for wallets; the engine, the other statements of the database, the HTTP interface, the
-- clients and the user interfaces, which are mostly glue to nodes, databases, wallets and browsers. The tables of
-- deployments.ts are data, over which its lookups are modelled. Cryptography, fetching and the reads of the
-- chain are arguments.
pub mod Shared
pub mod Errors
pub mod Network
pub mod Ids
pub mod Amounts
pub mod Risk
pub mod RiskReport
pub mod Valuation
pub mod Accounting
pub mod Performance
pub mod Plan
pub mod Signing
pub mod Ingestion
pub mod Registry
pub mod Sbtc
pub mod Granite
pub mod Worker
pub mod Workflow
pub mod BorrowSafety
