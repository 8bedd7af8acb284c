-- ===== src/Sip.antt =====
-- The SIP server of gateway/sipserver.go and the client of gateway/sip_uac.go: the ports that they hand
-- out, what an INVITE meets at the door, what becomes of it, what a BYE ends, and calls that go out.
pub mod Ports
pub mod Invite
pub mod Hangup
pub mod Answers
pub mod Dialling
pub mod Bodies
pub mod Arrival
