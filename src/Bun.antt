-- ===== src/Bun.antt =====
-- packages/verser2-guest-bun
pub mod Routes
