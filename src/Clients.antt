-- ===== src/Clients.antt =====
-- src/clients: what runs over the control tunnel.
pub mod Stream
pub mod Control
