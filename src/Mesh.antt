-- ===== src/Mesh.antt =====
-- daemon/mesh: the parts of the fabric that decide, without its transport.
pub mod KeyExpr
