-- ===== src/Runtime.antt =====
-- src/runtime: serving requests on the node.
pub mod Url
pub mod Dedupe
pub mod Ssrf
pub mod Profile
pub mod Serve
