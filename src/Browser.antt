-- ===== src/Browser.antt =====
-- The calls of the agents' browsers in gateway/webrtc.go.
pub mod Leaving
pub mod Speaker
