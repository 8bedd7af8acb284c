-- ===== src/Capacity/Admission/Tests.antt =====
-- Two goroutines and one free slot of gateway/scale.go.
use voiceagent.Base.{ℕ, ◌≡◌, refl, List, [], ◌∷◌, arith}
use voiceagent.Capacity.Admission.{
  outside, in_session, AdmissionController, step_caller, step_at, run_schedule,
}
use voiceagent.Capacity.Admission.Limit.{WithinLimit, run_schedule-WithinLimit}

abbrev one_slot : AdmissionController
one_slot = record { max_sessions = 1; current = 0 }

abbrev racing : List ℕ
racing = 0 ∷ 1 ∷ 1 ∷ 0 ∷ 0 ∷ []

-- Both load 0; the second swaps, the first then fails and is refused.
race :
    run_schedule racing (outside ∷ outside ∷ []) one_slot
    ≡ (outside ∷ in_session ∷ [], record { max_sessions = 1; current = 1 })
unfolding run_schedule step_at step_caller
race = refl

run_schedule-WithinLimit_example :
    WithinLimit 1 0 (run_schedule racing (outside ∷ outside ∷ []) one_slot)
run_schedule-WithinLimit_example =
    run_schedule-WithinLimit 1 racing (outside ∷ outside ∷ []) one_slot
      ((tt, (tt, tt)), refl, refl, omega arith)
