-- ===== src/Inbound.antt =====
-- What a caller brings to the gateway: a trunk to authenticate, a dialled number to route, key presses.
pub mod Dtmf
pub mod Ivr
pub mod Did
pub mod SipAuth
