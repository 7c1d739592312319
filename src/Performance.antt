-- ===== src/Performance.antt =====
-- packages/core/src/performance.ts: earnings attributed to cash flows (`Attribution`), the thirty-day
-- projection (`Projection`) and the history chart (`Chart`).
pub mod Shares
pub mod Attribution
pub mod Projection
pub mod Chart
pub mod Rounding
pub mod Yield
mod Examples
pub mod Points
pub mod Verified
