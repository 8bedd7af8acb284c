-- ===== src/Calls.antt =====
-- Calls that wait for an agent and calls in progress: the queues, the distributor, the announcements and
-- the call control.
pub mod Queue
pub mod Distributor
pub mod Announcer
pub mod Control
pub mod Conference
pub mod Supervisor
pub mod Routing
