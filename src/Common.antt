-- ===== src/Common.antt =====
-- packages/verser-common
pub mod Domain
pub mod Headers
pub mod Trim
pub mod Validate
pub mod Federation
pub mod VwsLine
pub mod Ndjson
pub mod Lifecycle
pub mod Generation
