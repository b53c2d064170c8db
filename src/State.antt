-- ===== src/State.antt =====
-- daemon/state/state.go: the replicated documents.
pub mod Clock
pub mod Register
pub mod Resolve
pub mod Engine
mod Tests
