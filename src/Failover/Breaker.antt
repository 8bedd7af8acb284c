-- ===== src/Failover/Breaker.antt =====
-- One circuit breaker of gateway/failover.go. No lock guards it: its methods are sequences of atomic
-- operations, which interleave with those of other goroutines (step_task); each method is also written as
-- a whole, for one that no other interrupts.
pub mod Steps
pub mod Invariant
pub mod Trips
mod Tests
use voiceagent.Base.{
  ℕ, zero, suc, ◌+◌, ◌-◌, Bool, true, false, ◌&&◌, List, [], ◌∷◌, ltb, leb, if◌then◌else◌,
}

pub data CircuitState : Type 0 where
  closed opened half_open : CircuitState

pub CircuitState-discrete : Discrete CircuitState
CircuitState-discrete = hlevel

pub record CircuitBreaker : Type 0 where
  pub state : CircuitState
  pub failures : ℕ
  pub successes : ℕ
  pub last_failure : ℕ
  pub threshold : ℕ
  pub reset_timeout : ℕ

unfoldable pub new_circuit_breaker : ℕ → ℕ → CircuitBreaker
new_circuit_breaker threshold reset_timeout = record {
  state = closed;
  failures = 0;
  successes = 0;
  last_failure = 0;
  threshold = threshold;
  reset_timeout = reset_timeout;
}

abbrev pub is_opened : CircuitState → Bool
is_opened opened = true
is_opened closed = false
is_opened half_open = false

-- `time.Since(lastFail) > cb.resetTimeout`; a clock that went back counts as no time.
abbrev pub is_over : ℕ → CircuitBreaker → Bool
is_over now cb = ltb cb.reset_timeout (now - cb.last_failure)

-- The state that `State` returns, from the one that it loads.
unfoldable pub state_after : CircuitState → ℕ → CircuitBreaker → CircuitState
state_after opened now cb = if is_over now cb then half_open else opened
state_after closed now cb = closed
state_after half_open now cb = half_open

-- `State` as a whole: its compare-and-swap succeeds.
unfoldable pub check_state : ℕ → CircuitBreaker → CircuitBreaker × CircuitState
unfolding state_after
check_state now cb = let s = state_after cb.state now cb in (record cb { state = s }, s)

abbrev pub lets_through : CircuitState → Bool
lets_through closed = true
lets_through half_open = true
lets_through opened = false

unfoldable pub allow : ℕ → CircuitBreaker → CircuitBreaker × Bool
unfolding check_state
allow now cb = let (cb', s) = check_state now cb in (cb', lets_through s)

unfoldable pub record_success : CircuitBreaker → CircuitBreaker
record_success cb = record cb { successes = cb.successes + 1; failures = 0; state = closed }

unfoldable pub record_failure : ℕ → CircuitBreaker → CircuitBreaker
record_failure now cb =
    let failures' = cb.failures + 1 in
    record cb {
      failures = failures';
      last_failure = now;
      state = if leb cb.threshold failures' then opened else cb.state;
    }

-- Where a goroutine stands: in none of the methods; in State, behind the load of an open state or of the
-- time of the last failure; in RecordSuccess, behind the first or the second operation; in RecordFailure,
-- behind the first or the second operation, or behind a load that reached the threshold.
pub data Task : Type 0 where
  idle : Task
  loaded_open : Task
  comparing : ℕ → Task
  clearing : Task
  closing : Task
  stamping : Task
  counting : Task
  opening : Task

-- The method that a goroutine enters next, which one in a method does not look at.
pub data Method : Type 0 where
  ask succeed fail : Method

unfoldable pub enter : Method → CircuitBreaker → Task × CircuitBreaker
enter ask cb = (if is_opened cb.state then loaded_open else idle, cb)
enter succeed cb = (clearing, record cb { successes = cb.successes + 1 })
enter fail cb = (stamping, record cb { failures = cb.failures + 1 })

-- The next atomic operation of a goroutine, with the clock as it reads it.
unfoldable pub step_task : Method → ℕ → Task → CircuitBreaker → Task × CircuitBreaker
unfolding enter
step_task method now idle cb = enter method cb
step_task method now loaded_open cb = (comparing cb.last_failure, cb)
step_task method now (comparing last) cb = (
  idle,
  if ltb cb.reset_timeout (now - last) && is_opened cb.state
      then record cb { state = half_open }
      else cb,
)
step_task method now clearing cb = (closing, record cb { failures = 0 })
step_task method now closing cb = (idle, record cb { state = closed })
step_task method now stamping cb = (counting, record cb { last_failure = now })
step_task method now counting cb = (if leb cb.threshold cb.failures then opening else idle, cb)
step_task method now opening cb = (idle, record cb { state = opened })

-- Which goroutine takes a step, the method that it enters if it is in none, and the clock.
pub record Move : Type 0 where
  pub goroutine : ℕ
  pub method : Method
  pub now : ℕ

unfoldable pub step_at : ℕ → Method → ℕ → List Task → CircuitBreaker → List Task × CircuitBreaker
step_at i method now [] cb = ([], cb)
step_at zero method now (t ∷ ts) cb = let (t', cb') = step_task method now t cb in (t' ∷ ts, cb')
step_at (suc i) method now (t ∷ ts) cb =
    let (ts', cb') = step_at i method now ts cb in (t ∷ ts', cb')

unfoldable pub run_moves : List Move → List Task → CircuitBreaker → List Task × CircuitBreaker
run_moves [] ts cb = (ts, cb)
run_moves (m ∷ ms) ts cb =
    let (ts', cb') = step_at m.goroutine m.method m.now ts cb in run_moves ms ts' cb'
