-- ===== src/DataPlane.antt =====
-- daemon/dataplane: the bulk path, bounded by the byte quota of a grant.
pub mod Stream
pub mod Frame
pub mod Server
mod Tests
