-- ===== src/Host.antt =====
-- packages/verser2-host
pub mod Authorizer
pub mod LeasePool
pub mod Registry
