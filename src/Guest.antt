-- ===== src/Guest.antt =====
-- The Guest for Node: packages/verser2-guest-node/src/lib.
pub mod Dispatch
pub mod Chunked
