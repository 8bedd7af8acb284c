-- ===== src/Failover/Breaker/Steps.antt =====
-- What one atomic operation of a goroutine does to a circuit breaker of gateway/failover.go.
use voiceagent.Base.{
  ℕ, zero, suc, max, ◌+◌, ◌≤◌, ◌<◌, ◌≡◌, refl, ◌⊎◌, inl, inr, List, [], ◌∷◌, leb, ltb, leb→le, ◌&&◌,
  ◌-◌, if_elim, arith,
}
use voiceagent.Failover.Breaker.{
  closed, is_opened, CircuitBreaker, Task, idle, loaded_open, comparing, clearing, closing,
  stamping, counting, opening, Method, ask, succeed, fail, enter, step_task, Move, step_at,
}

-- What happens to the count of failures, the latest first: a failure adds to it, a success resets it.
pub data Count : Type 0 where
  failed reset : Count

-- The failures since the last reset, the most that they ever were, and the resets.
abbrev pub streak : List Count → ℕ
streak [] = 0
streak (failed ∷ log) = streak log + 1
streak (reset ∷ log) = 0

abbrev pub peak : List Count → ℕ
peak [] = 0
peak (c ∷ log) = max (streak (c ∷ log)) (peak log)

abbrev pub resets : List Count → ℕ
resets [] = 0
resets (failed ∷ log) = resets log
resets (reset ∷ log) = resets log + 1

-- The log with the step of a goroutine: RecordFailure begins with its count, and RecordSuccess resets
-- the count second.
abbrev pub log_task : Task → Method → List Count → List Count
log_task idle fail log = failed ∷ log
log_task idle ask log = log
log_task idle succeed log = log
log_task clearing method log = reset ∷ log
log_task loaded_open method log = log
log_task (comparing last) method log = log
log_task closing method log = log
log_task stamping method log = log
log_task counting method log = log
log_task opening method log = log

abbrev pub log_at : ℕ → Method → List Task → List Count → List Count
log_at i method [] log = log
log_at zero method (t ∷ ts) log = log_task t method log
log_at (suc i) method (t ∷ ts) log = log_at i method ts log

unfoldable pub run_log : List Move → List Task → CircuitBreaker → List Count → List Count
run_log [] ts cb log = log
run_log (m ∷ ms) ts cb log =
    let (ts', cb') = step_at m.goroutine m.method m.now ts cb in
    run_log ms ts' cb' (log_at m.goroutine m.method ts log)

-- A goroutine about to open had a count that reached the limit, and one about to close has reset it.
abbrev pub Backed : ℕ → List Count → Task → Type 0
Backed limit log opening = limit ≤ peak log
Backed limit log closing = 0 < resets log
Backed limit log idle = Unit
Backed limit log loaded_open = Unit
Backed limit log (comparing last) = Unit
Backed limit log clearing = Unit
Backed limit log stamping = Unit
Backed limit log counting = Unit

-- The goroutines that are about to compare the count or to open.
abbrev pub to_open : Task → ℕ
to_open stamping = 1
to_open counting = 1
to_open opening = 1
to_open idle = 0
to_open loaded_open = 0
to_open (comparing last) = 0
to_open clearing = 0
to_open closing = 0

abbrev pub openers : List Task → ℕ
openers [] = 0
openers (t ∷ ts) = to_open t + openers ts

-- Of the breaker and its log, next to so many goroutines that are about to open.
abbrev pub Sound : ℕ → ℕ → CircuitBreaker → List Count → Type 0
Sound limit pending cb log =
    (cb.threshold ≡ limit)
    × (cb.failures ≡ streak log)
    × ((cb.state ≡ closed) ⊎ (limit ≤ peak log))
    × ((resets log ≡ 0) → (cb.state ≡ closed) → (cb.failures < limit) ⊎ (0 < pending))

streak-peak : (log : List Count) → streak log ≤ peak log
streak-peak [] = omega arith
streak-peak (c ∷ log) = omega arith

pub log_task-grows :
    (t : Task) (method : Method) (log : List Count)
    → (peak log ≤ peak (log_task t method log)) × (resets log ≤ resets (log_task t method log))
log_task-grows idle fail log = (omega arith, omega arith)
log_task-grows idle ask log = (omega arith, omega arith)
log_task-grows idle succeed log = (omega arith, omega arith)
log_task-grows clearing method log = (omega arith, omega arith)
log_task-grows loaded_open method log = (omega arith, omega arith)
log_task-grows (comparing last) method log = (omega arith, omega arith)
log_task-grows closing method log = (omega arith, omega arith)
log_task-grows stamping method log = (omega arith, omega arith)
log_task-grows counting method log = (omega arith, omega arith)
log_task-grows opening method log = (omega arith, omega arith)

-- What holds of a goroutine, the breaker and its log, next to others that are about to open.
abbrev StepOk : ℕ → ℕ → List Count → Task × CircuitBreaker → Type 0
StepOk limit others log (t, cb) = Backed limit log t × Sound limit (to_open t + others) cb log

pub step_task-StepOk :
    (limit others : ℕ) (method : Method) (now : ℕ) (t : Task) (cb : CircuitBreaker)
    (log : List Count)
    → StepOk limit others log (t, cb)
    → StepOk limit others (log_task t method log) (step_task method now t cb)
unfolding step_task enter
step_task-StepOk limit others ask now idle cb log (b, (m, f, c, d)) =
    if_elim (λ t. StepOk limit others log (t, cb)) _ _ (is_opened cb.state)
      (λ e. (tt, (m, f, c, d))) (λ e. (tt, (m, f, c, d)))
step_task-StepOk limit others succeed now idle cb log (b, (m, f, c, d)) = (tt, (m, f, c, d))
step_task-StepOk limit others fail now idle cb log (b, (m, f, c, d)) = (
  tt,
  (
    m,
    omega (arith, f),
    elim c [ inl h ↦ inl h | inr h ↦ inr (omega (arith, h)) ],
    λ r s. inr (omega arith),
  ),
)
step_task-StepOk limit others method now loaded_open cb log (b, (m, f, c, d)) = (tt, (m, f, c, d))
step_task-StepOk limit others method now (comparing last) cb log (b, (m, f, c, d)) =
    if_elim (λ after. StepOk limit others log (idle, after)) _ _
      (ltb cb.reset_timeout (now - last) && is_opened cb.state)
      (λ e. (tt, (m, f, inr (ground (arith, e, c)), λ r s. absurd (ground (arith, s)))))
      (λ e. (tt, (m, f, c, d)))
step_task-StepOk limit others method now clearing cb log (b, (m, f, c, d)) = (
  omega arith,
  (
    m,
    refl,
    elim c [ inl h ↦ inl h | inr h ↦ inr (omega (arith, h)) ],
    λ r s. absurd (omega (arith, r)),
  ),
)
step_task-StepOk limit others method now closing cb log (b, (m, f, c, d)) =
    (tt, (m, f, inl refl, λ r s. absurd (omega (arith, b, r))))
step_task-StepOk limit others method now stamping cb log (b, (m, f, c, d)) = (tt, (m, f, c, d))
step_task-StepOk limit others method now counting cb log (b, (m, f, c, d)) =
    if_elim (λ t. StepOk limit others log (t, cb)) _ _ (leb cb.threshold cb.failures)
      (λ e. (
        omega (arith, leb→le cb.threshold cb.failures e, m, f, streak-peak log),
        (m, f, c, λ r s. inr (omega arith)),
      ))
      (λ e. (tt, (m, f, c, λ r s. inl (ground (arith, e, m)))))
step_task-StepOk limit others method now opening cb log (b, (m, f, c, d)) =
    (tt, (m, f, inr b, λ r s. absurd (ground (arith, s))))
