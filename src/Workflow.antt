-- ===== src/Workflow.antt =====
-- packages/core/src/workflow.ts: the durable workflow of one action. `States` holds the states and
-- the table of allowed moves, `Moves` the operations that record a move, `Calls` any sequence of
-- them. The clock that the code reads (`new Date().toISOString()`) is an argument.
pub mod States
pub mod Moves
pub mod Calls
pub mod Route
pub mod Outcomes
pub mod Progress
pub mod Answers
mod Examples
