-- ===== src/Failover.antt =====
-- The circuit breakers and the failover manager of gateway/failover.go. Times are nanoseconds; each
-- method takes the reading of the clock that the source makes with time.Now or time.Since.
pub mod Breaker
pub mod Manager
