-- ===== src/Registry.antt =====
-- packages/config/src: what may be executed where. `Deployments` is the lookups of deployments.ts, over
-- any tables of contracts and capabilities; `Signed` is signedRegistry.ts, `Canonical` the text that
-- it signs.
pub mod Deployments
pub mod Canonical
pub mod Signed
pub mod Validate
pub mod Sound
pub mod Modes
mod Examples
