-- ===== src/Node.antt =====
-- What a node keeps on its disk: src/node.
pub mod SecretStore
pub mod Identity
