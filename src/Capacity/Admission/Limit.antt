-- ===== src/Capacity/Admission/Limit.antt =====
-- The limit that gateway/scale.go puts on the sessions.
use voiceagent.Base.{
  ℕ, zero, suc, ◌+◌, ◌≤◌, ◌<◌, ◌≡◌, leb, ◌==◌, if_elim, List, [], ◌∷◌, arith, All,
}
use voiceagent.Capacity.Admission.{
  Caller, outside, loaded, in_session, AdmissionController, step_caller, step_at, run_schedule,
}

abbrev pub is_session : Caller → ℕ
is_session outside = 0
is_session (loaded n) = 0
is_session in_session = 1

abbrev pub sessions : List Caller → ℕ
sessions [] = 0
sessions (c ∷ cs) = is_session c + sessions cs

-- A value that a Load kept was under the limit.
abbrev pub Under : ℕ → Caller → Type 0
Under limit outside = Unit
Under limit (loaded n) = n < limit
Under limit in_session = Unit

-- What holds of a caller and the counter next to `others` sessions, before and after a step.
abbrev StepOk : ℕ → ℕ → Caller × AdmissionController → Type 0
StepOk limit others (c, ac) =
    Under limit c
    × (ac.max_sessions ≡ limit)
    × (ac.current ≡ others + is_session c)
    × (ac.current ≤ limit)

step_caller-StepOk :
    (limit others : ℕ) (c : Caller) (ac : AdmissionController)
    → StepOk limit others (c, ac)
    → StepOk limit others (step_caller c ac)
unfolding step_caller
step_caller-StepOk limit others outside ac (u, m, e, h) =
    if_elim (StepOk limit others) _ _ (leb ac.max_sessions ac.current) (λ _. (tt, m, e, h))
      (λ room. (ground (arith, m, room), m, omega (arith, e), h))
step_caller-StepOk limit others (loaded n) ac (u, m, e, h) =
    if_elim (StepOk limit others) _ _ (ac.current == n)
      (λ same. (tt, m, ground (arith, e, same), omega (arith, u)))
      (λ _. (tt, m, omega (arith, e), h))
step_caller-StepOk limit others in_session ac (u, m, e, h) =
    (tt, m, omega (arith, e), omega (arith, h))

-- The counter is the number of sessions, and within the limit.
abbrev pub WithinLimit : ℕ → ℕ → List Caller × AdmissionController → Type 0
WithinLimit limit others (cs, ac) =
    All (Under limit) cs
    × (ac.max_sessions ≡ limit)
    × (ac.current ≡ others + sessions cs)
    × (ac.current ≤ limit)

step_at-WithinLimit :
    (limit others i : ℕ) (cs : List Caller) (ac : AdmissionController)
    → WithinLimit limit others (cs, ac)
    → WithinLimit limit others (step_at i cs ac)
unfolding step_at
step_at-WithinLimit limit others i [] ac w = w
step_at-WithinLimit limit others zero (c ∷ cs) ac ((u, us), m, e, h) =
    let r = step_caller-StepOk limit (others + sessions cs) c ac (u, m, omega (arith, e), h) in
    ((r.0, us), r.1, omega (arith, r.2), r.3)
step_at-WithinLimit limit others (suc i) (c ∷ cs) ac ((u, us), m, e, h) =
    let r =
      step_at-WithinLimit limit (others + is_session c) i cs ac (us, m, omega (arith, e), h) in
    ((u, r.0), r.1, omega (arith, r.2), r.3)

-- However the loads, the swaps and the releases of the goroutines interleave, the counter stays the
-- number of the sessions and within the limit, once it is so and every value loaded was below it.
pub run_schedule-WithinLimit :
    (limit : ℕ) (is : List ℕ) (cs : List Caller) (ac : AdmissionController)
    → WithinLimit limit 0 (cs, ac)
    → WithinLimit limit 0 (run_schedule is cs ac)
unfolding run_schedule
run_schedule-WithinLimit limit [] cs ac w = w
run_schedule-WithinLimit limit (i ∷ is) cs ac w =
    let r = step_at i cs ac in
    run_schedule-WithinLimit limit is r.0 r.1 (step_at-WithinLimit limit 0 i cs ac w)

-- A goroutine that is alone in Admit, with a slot free, is in a session two steps later.
pub step_caller_admits :
    (ac : AdmissionController)
    → ac.current < ac.max_sessions
    → (step_caller (step_caller outside ac).0 (step_caller outside ac).1).0 ≡ in_session
unfolding step_caller
step_caller_admits ac h = ground (arith, h)
