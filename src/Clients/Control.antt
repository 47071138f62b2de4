-- ===== src/Clients/Control.antt =====
-- src/clients/control-client.ts: what the node does with the messages of its control tunnel.
pub mod PublicFrames
pub mod Target
pub mod State
pub mod Streams
pub mod Linked
pub mod Requests
pub mod Updates
pub mod Dispatch
