-- ===== src/Releases.antt =====
-- The releases of the node: src/update.ts and src/node/manifest.ts.
pub mod Update
