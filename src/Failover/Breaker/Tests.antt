-- ===== src/Failover/Breaker/Tests.antt =====
-- A breaker of gateway/failover.go with a threshold of 1 and a time-out of 30.
use voiceagent.Base.{ℕ, ◌≡◌, ◌≤◌, refl, ◌⊎◌, List, [], ◌∷◌, arith}
use voiceagent.Failover.Breaker.{
  closed, opened, CircuitBreaker, new_circuit_breaker, Task, Method, succeed, fail, enter,
  step_task, Move, step_at, run_moves,
}
use voiceagent.Failover.Breaker.Steps.{Count, streak, peak, run_log}
use voiceagent.Failover.Breaker.Invariant.{all_idle, AtRest, run_moves-AtRest}

abbrev move : ℕ → Method → Move
move i m = record { goroutine = i; method = m; now = 5 }

-- A failure reaches the threshold; a success comes in before the failure opens the breaker.
abbrev race : List Move
race =
    move 0 fail
    ∷ move 0 fail
    ∷ move 0 fail
    ∷ move 1 succeed
    ∷ move 1 succeed
    ∷ move 1 succeed
    ∷ move 0 fail
    ∷ []

race_opens : (run_moves race (all_idle 2) (new_circuit_breaker 1 30)).1.state ≡ opened
unfolding run_moves step_at step_task enter new_circuit_breaker
race_opens = refl

race_forgets : (run_moves race (all_idle 2) (new_circuit_breaker 1 30)).1.failures ≡ 0
unfolding run_moves step_at step_task enter new_circuit_breaker
race_forgets = refl

run_moves-AtRest_example :
    let cb : CircuitBreaker = new_circuit_breaker 1 30 in
    let log : List Count = run_log race (all_idle 2) cb [] in
    let after : List Task × CircuitBreaker = run_moves race (all_idle 2) cb in
    (after.1.failures ≡ streak log)
    × ((after.1.state ≡ closed) ⊎ (1 ≤ peak log))
    × AtRest 1 log after
run_moves-AtRest_example = run_moves-AtRest 1 30 2 race (omega arith)
