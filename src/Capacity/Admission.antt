-- ===== src/Capacity/Admission.antt =====
-- The AdmissionController of gateway/scale.go, used by several goroutines at once. Each atomic operation
-- is a step of its own; only a session that was admitted releases its slot.
pub mod Limit
mod Tests
use voiceagent.Base.{ℕ, zero, suc, ◌+◌, ◌-◌, Bool, List, [], ◌∷◌, if◌then◌else◌, leb, ◌==◌}

-- Where a goroutine stands: outside, after the Load in Admit with the value read, or in a session.
pub data Caller : Type 0 where
  outside : Caller
  loaded : ℕ → Caller
  in_session : Caller

pub record AdmissionController : Type 0 where
  pub max_sessions : ℕ
  pub current : ℕ

-- The step that a goroutine takes next. Admit loads, compares with the limit and swaps; a swap that
-- fails goes round the loop to the next Load. In a session it releases.
unfoldable pub step_caller : Caller → AdmissionController → Caller × AdmissionController
step_caller outside ac =
    if leb ac.max_sessions ac.current then (outside, ac) else (loaded ac.current, ac)
step_caller (loaded n) ac =
    if ac.current == n then (in_session, record ac { current = n + 1 }) else (outside, ac)
step_caller in_session ac = (outside, record ac { current = ac.current - 1 })

-- The goroutine number i takes a step.
unfoldable pub step_at : ℕ → List Caller → AdmissionController → List Caller × AdmissionController
step_at i [] ac = ([], ac)
step_at zero (c ∷ cs) ac = let (c', ac') = step_caller c ac in (c' ∷ cs, ac')
step_at (suc i) (c ∷ cs) ac = let (cs', ac') = step_at i cs ac in (c ∷ cs', ac')

-- A schedule names the goroutine of each step.
unfoldable pub run_schedule :
    List ℕ → List Caller → AdmissionController → List Caller × AdmissionController
run_schedule [] cs ac = (cs, ac)
run_schedule (i ∷ is) cs ac = let (cs', ac') = step_at i cs ac in run_schedule is cs' ac'
