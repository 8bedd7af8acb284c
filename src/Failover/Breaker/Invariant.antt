-- ===== src/Failover/Breaker/Invariant.antt =====
-- What holds of the circuit breaker of gateway/failover.go however the operations of its methods
-- interleave.
use voiceagent.Base.{
  ℕ, zero, suc, ◌+◌, ◌≤◌, ◌<◌, ◌≡◌, refl, ◌⊎◌, inl, inr, ◌↔◌, List, [], ◌∷◌, ltb, ltb→lt,
  Bool-cases, subst, All, arith, replicate,
}
use voiceagent.Failover.Breaker.{
  closed, CircuitBreaker, new_circuit_breaker, Task, idle, loaded_open, comparing, clearing,
  closing, stamping, counting, opening, Method, step_task, Move, step_at, run_moves,
}
use voiceagent.Failover.Breaker.Steps.{
  Count, failed, reset, streak, peak, resets, log_task, log_at, run_log, Backed, to_open, openers,
  Sound, log_task-grows, step_task-StepOk,
}

Backed-later :
    (limit : ℕ) (log later : List Count) (t : Task)
    → peak log ≤ peak later
    → resets log ≤ resets later
    → Backed limit log t
    → Backed limit later t
Backed-later limit log later opening p r b = omega (arith, p, b)
Backed-later limit log later closing p r b = omega (arith, r, b)
Backed-later limit log later idle p r b = tt
Backed-later limit log later loaded_open p r b = tt
Backed-later limit log later (comparing last) p r b = tt
Backed-later limit log later clearing p r b = tt
Backed-later limit log later stamping p r b = tt
Backed-later limit log later counting p r b = tt

AllBacked-later :
    (limit : ℕ) (log later : List Count) (ts : List Task)
    → peak log ≤ peak later
    → resets log ≤ resets later
    → All (Backed limit log) ts
    → All (Backed limit later) ts
AllBacked-later limit log later [] p r bs = tt
AllBacked-later limit log later (t ∷ ts) p r (b, bs) =
    (Backed-later limit log later t p r b, AllBacked-later limit log later ts p r bs)

log_at-grows :
    (i : ℕ) (method : Method) (ts : List Task) (log : List Count)
    → (peak log ≤ peak (log_at i method ts log)) × (resets log ≤ resets (log_at i method ts log))
log_at-grows i method [] log = (omega arith, omega arith)
log_at-grows zero method (t ∷ ts) log = log_task-grows t method log
log_at-grows (suc i) method (t ∷ ts) log = log_at-grows i method ts log

abbrev AllOk : ℕ → ℕ → List Count → List Task × CircuitBreaker → Type 0
AllOk limit others log (ts, cb) =
    All (Backed limit log) ts × Sound limit (openers ts + others) cb log

regroup :
    (limit : ℕ) (cb : CircuitBreaker) (log : List Count) (n k : ℕ)
    → n ≡ k
    → Sound limit n cb log
    → Sound limit k cb log
regroup limit cb log n k e = subst (λ j. Sound limit j cb log) e

step_at-AllOk :
    (limit others i : ℕ) (method : Method) (now : ℕ) (ts : List Task) (cb : CircuitBreaker)
    (log : List Count)
    → AllOk limit others log (ts, cb)
    → AllOk limit others (log_at i method ts log) (step_at i method now ts cb)
unfolding step_at
step_at-AllOk limit others i method now [] cb log ok = ok
step_at-AllOk limit others zero method now (t ∷ ts) cb log ((b, bs), ok) =
    let after : Task × CircuitBreaker = step_task method now t cb in
    let log' : List Count = log_task t method log in
    let (b', ok') =
      step_task-StepOk limit (openers ts + others) method now t cb log
        (b, regroup limit cb log (openers (t ∷ ts) + others) _ (omega arith) ok) in
    let (p, r) = log_task-grows t method log in
    (
      (b', AllBacked-later limit log log' ts p r bs),
      regroup limit after.1 log' (to_open after.0 + (openers ts + others)) _ (omega arith) ok',
    )
step_at-AllOk limit others (suc i) method now (t ∷ ts) cb log ((b, bs), ok) =
    let after : List Task × CircuitBreaker = step_at i method now ts cb in
    let log' : List Count = log_at i method ts log in
    let (bs', ok') =
      step_at-AllOk limit (to_open t + others) i method now ts cb log
        (bs, regroup limit cb log (openers (t ∷ ts) + others) _ (omega arith) ok) in
    let (p, r) = log_at-grows i method ts log in
    (
      (Backed-later limit log log' t p r b, bs'),
      regroup limit after.1 log' (openers after.0 + (to_open t + others)) _ (omega arith) ok',
    )

run_moves-AllOk :
    (limit : ℕ) (ms : List Move) (ts : List Task) (cb : CircuitBreaker) (log : List Count)
    → AllOk limit 0 log (ts, cb)
    → AllOk limit 0 (run_log ms ts cb log) (run_moves ms ts cb)
unfolding run_moves run_log
run_moves-AllOk limit [] ts cb log ok = ok
run_moves-AllOk limit (m ∷ ms) ts cb log ok =
    let after : List Task × CircuitBreaker = step_at m.goroutine m.method m.now ts cb in
    run_moves-AllOk limit ms after.0 after.1 (log_at m.goroutine m.method ts log)
      (step_at-AllOk limit 0 m.goroutine m.method m.now ts cb log ok)

abbrev pub all_idle : ℕ → List Task
all_idle n = replicate n idle

all_idle-Backed : (limit n : ℕ) → All (Backed limit []) (all_idle n)
all_idle-Backed limit zero = tt
all_idle-Backed limit (suc n) = (tt, all_idle-Backed limit n)

peak_without_reset : (log : List Count) → resets log ≡ 0 → peak log ≡ streak log
peak_without_reset [] e = refl
peak_without_reset (failed ∷ log) e = omega (arith, peak_without_reset log e)
peak_without_reset (reset ∷ log) e = absurd (omega (arith, e))

-- Closed below the threshold, unless a success reset the count or a goroutine is about to open.
abbrev pub AtRest : ℕ → List Count → List Task × CircuitBreaker → Type 0
AtRest threshold log (ts, cb) =
    (0 < resets log) ⊎ ((0 < openers ts) ⊎ ((cb.state ≡ closed) ↔ (cb.failures < threshold)))

AllOk-AtRest :
    (limit : ℕ) (log : List Count) (after : List Task × CircuitBreaker)
    → AllOk limit 0 log after
    → AtRest limit log after
AllOk-AtRest limit log (ts, cb) (b, (m, f, c, d)) = elim (Bool-cases (ltb 0 (resets log))) [
  | inl some_reset ↦ inl (ltb→lt 0 (resets log) some_reset)
  | inr no_reset ↦ elim (Bool-cases (ltb 0 (openers ts))) [
    | inl busy ↦ inr (inl (ltb→lt 0 (openers ts) busy))
    | inr rest ↦
        let none_reset : resets log ≡ 0 = ground (arith, no_reset) in
        inr (
          inr (
            λ s. elim (d none_reset s) [ inl h ↦ h | inr h ↦ absurd (ground (arith, h, rest)) ],
            λ few. elim c [
              | inl h ↦ h
              | inr h ↦ absurd (omega (arith, h, few, f, peak_without_reset log none_reset))
            ],
          ))
  ]
]

-- However the atomic operations of any number of goroutines interleave, a new breaker with a threshold
-- above 0 counts the failures since the count was last reset, and is closed unless that count has
-- reached the threshold at some time. As long as no success has reset it, and while no goroutine is in
-- RecordFailure, it is closed exactly if the count is below the threshold.
pub run_moves-AtRest :
    (threshold reset_timeout goroutines : ℕ) (ms : List Move)
    → 0 < threshold
    → let cb : CircuitBreaker = new_circuit_breaker threshold reset_timeout in
      let log : List Count = run_log ms (all_idle goroutines) cb [] in
      let after : List Task × CircuitBreaker = run_moves ms (all_idle goroutines) cb in
      (after.1.failures ≡ streak log)
      × ((after.1.state ≡ closed) ⊎ (threshold ≤ peak log))
      × AtRest threshold log after
unfolding new_circuit_breaker
run_moves-AtRest threshold reset_timeout goroutines ms h =
    let cb : CircuitBreaker = new_circuit_breaker threshold reset_timeout in
    let ok =
      run_moves-AllOk threshold ms (all_idle goroutines) cb []
        (all_idle-Backed threshold goroutines, (refl, refl, inl refl, λ r s. inl h)) in
    (
      ok.1.1,
      ok.1.2,
      AllOk-AtRest threshold (run_log ms (all_idle goroutines) cb [])
          (run_moves ms (all_idle goroutines) cb) ok,
    )
