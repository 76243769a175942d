-- ===== src/Identity.antt =====
-- packages/cyberlegion/src/identity.ts: who a session is, whom a reference names, and which
-- records are still alive.
pub mod Liveness
pub mod Resolve
pub mod Presence
pub mod Register
pub mod Reap
mod Tests
