-- ===== src/Failover/Breaker/Trips.antt =====
-- When the breaker of gateway/failover.go refuses, and what it lets through after that.
use voiceagent.Base.{
  ℕ, ◌+◌, ◌-◌, ◌≤◌, ◌<◌, ◌≡◌, refl, ◌↔◌, Bool, true, false, List, [], ◌∷◌, arith, if◌then◌else◌,
}
use voiceagent.Failover.Breaker.{
  closed, opened, half_open, CircuitBreaker, record_failure, record_success, allow,
}

-- A request is refused exactly while the breaker is open and its time-out has not passed since the
-- last failure; it leaves the breaker open exactly if it is refused, and the count and the time of
-- the last failure as they were.
pub allow_refuses_iff :
    (cb : CircuitBreaker) (now : ℕ)
    → (((allow now cb).1 ≡ false)
        ↔ ((cb.state ≡ opened) × (now - cb.last_failure ≤ cb.reset_timeout)))
      × (((allow now cb).0.state ≡ opened) ↔ ((allow now cb).1 ≡ false))
      × ((allow now cb).0.failures ≡ cb.failures)
      × ((allow now cb).0.last_failure ≡ cb.last_failure)
unfolding allow
allow_refuses_iff cb now = ground arith

-- Requests at the given times, and whether each was let through.
pub ask_all : CircuitBreaker → List ℕ → CircuitBreaker × Bool
ask_all cb [] = (cb, true)
ask_all cb (t ∷ ts) = let (cb', ok) = allow t cb in if ok then ask_all cb' ts else (cb', false)

allow_half_open : (cb : CircuitBreaker) (now : ℕ) → cb.state ≡ half_open → allow now cb ≡ (cb, true)
unfolding allow
allow_half_open cb now h = ground arith

-- A half-open breaker lets every request through, however many come before one of them succeeds or
-- fails, and stays half open.
pub half_open_admits_all :
    (cb : CircuitBreaker) (times : List ℕ) → cb.state ≡ half_open → ask_all cb times ≡ (cb, true)
unfolding ask_all
half_open_admits_all cb [] h = refl
half_open_admits_all cb (t ∷ ts) h = rw (allow_half_open cb t h) (half_open_admits_all cb ts h)

-- An open breaker whose time-out has passed goes to half open with the next request; one failure
-- opens it again for a full time-out, one success closes it and clears the count.
pub probe_decides :
    (cb : CircuitBreaker) (now later : ℕ)
    → cb.state ≡ opened
    → cb.threshold ≤ cb.failures
    → cb.reset_timeout < now - cb.last_failure
    → let probing = (allow now cb).0 in
      (probing.state ≡ half_open)
      × ((record_failure later probing).state ≡ opened)
      × ((record_failure later probing).last_failure ≡ later)
      × ((record_success probing).state ≡ closed)
      × ((record_success probing).failures ≡ 0)
unfolding allow record_failure record_success
probe_decides cb now later o t h = ground arith

-- The failure that reaches the threshold stops every request until the time-out has passed.
pub trips :
    (cb : CircuitBreaker) (failed_at now : ℕ)
    → cb.threshold ≤ cb.failures + 1
    → now - failed_at ≤ cb.reset_timeout
    → (allow now (record_failure failed_at cb)).1 ≡ false
unfolding allow record_failure
trips cb failed_at now t h = ground arith
