-- ===== src/Session.antt =====
-- packages/cyberlegion/src/session.ts: launching a unit's session.
pub mod Quote
pub mod Launch
pub mod Spawn
mod Tests
