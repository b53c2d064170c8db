-- ===== src/Auth.antt =====
-- daemon/auth: capabilities, their attenuation and their verification.
pub mod Grant
pub mod Envelope
pub mod Token
pub mod Gossip
