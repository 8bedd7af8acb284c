-- ===== src/Capacity.antt =====
-- How much the gateway takes on: admission of sessions, and the pools of speech workers.
pub mod Admission
pub mod Workers
