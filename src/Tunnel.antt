-- ===== src/Tunnel.antt =====
-- src/tunnel: the control tunnel of the node, from frames to the client, and the data plane.
pub mod FrameType
pub mod Frames
pub mod Messages
pub mod Client
pub mod Canonical
pub mod Checks
pub mod ResponderAuth
pub mod Handshake
pub mod DataHandshake
pub mod DataPlane
