-- ===== src/Access.antt =====
-- Who may use the gateway: logins and tokens, the sessions of agents, and callers that are blocked.
pub mod Hex
pub mod Auth
pub mod Agents
pub mod Robocall
