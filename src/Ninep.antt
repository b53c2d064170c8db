-- ===== src/Ninep.antt =====
-- daemon/ninep: the namespace of devices and files that 9P clients walk, each with a capability.
pub mod Path
pub mod Server
pub mod Listing
pub mod Files
pub mod Wire
pub mod Owner
pub mod Gates
pub mod Walk
pub mod Leak
mod Tests
