-- ===== src/Outbound.antt =====
-- What the gateway tells other systems.
pub mod Webhooks
