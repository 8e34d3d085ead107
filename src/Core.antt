-- ===== src/Core.antt =====
-- src/gg_relay/core: what the components share beside the lifecycle.
pub mod Errors
pub mod Bus
pub mod Durable
