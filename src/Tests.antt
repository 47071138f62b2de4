-- ===== src/Tests.antt =====
-- Runs of the definitions on concrete inputs, and the theorems applied to them.
pub mod Instances
pub mod StackJson
mod Tunnel
mod Client
mod Profiles
mod Tickets
pub mod Requests
mod Runtime
pub mod DataPlane
mod Handshake
mod Control
mod Releases
mod Secrets
mod TunnelHandshake
mod Connection
