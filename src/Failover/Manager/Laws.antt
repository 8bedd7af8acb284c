-- ===== src/Failover/Manager/Laws.antt =====
-- When gateway/failover.go transfers a caller to a human.
use voiceagent.Base.{
  ℕ, suc, ◌+◌, ◌-◌, ◌≤◌, ◌<◌, ◌≡◌, refl, Bool, List, [], ◌∷◌, arith, Text, if◌then◌else◌,
}
use voiceagent.Failover.Breaker.{CircuitBreaker, closed, opened, check_state, allow, record_failure}
use voiceagent.Failover.Manager.{
  FailoverManager, Readings, Effect, uuid_transfer, transfer_to_human, note_failure,
  handle_llm_failure, handle_stt_failure,
}

-- How often a caller is transferred by a list of effects.
abbrev pub transfers : List Effect → ℕ
transfers [] = 0
transfers (uuid_transfer ∷ es) = suc (transfers es)
transfers (e ∷ es) = transfers es

module _ (call_id : Text) (sanitize_header : Text → Text) where
  -- The failure that reaches the threshold, seen within the time-out, opens the breaker.
  note_failure_opens :
      (t : Readings) (cb : CircuitBreaker)
      → cb.threshold ≤ cb.failures + 1
      → t.logged_at - t.failed_at ≤ cb.reset_timeout
      → t.tested_at - t.failed_at ≤ cb.reset_timeout
      → (note_failure call_id sanitize_header t cb).1 ≡ opened
  unfolding note_failure check_state record_failure
  note_failure_opens t cb h l u = ground arith

  -- A failure below the threshold leaves a closed breaker closed.
  note_failure_stays :
      (t : Readings) (cb : CircuitBreaker)
      → cb.state ≡ closed
      → cb.failures + 1 < cb.threshold
      → let (cb', s) = note_failure call_id sanitize_header t cb in
        (s ≡ closed) × (cb'.state ≡ closed) × (cb'.failures ≡ cb.failures + 1)
  unfolding note_failure check_state record_failure
  note_failure_stays t cb c h = ground arith

  transfer_allowed :
      (answered : Bool) (t : Readings) (reason summary : Text) (fm : FailoverManager)
      → (transfers (transfer_to_human call_id sanitize_header answered t reason summary fm).1
          ≡ (if (allow t.esl_at fm.esl).1 then 1 else 0))
  unfolding transfer_to_human
  transfer_allowed answered t reason summary fm = ground arith

  -- The failure of the language model that reaches its breaker's threshold, if the state is read
  -- within the time-out, transfers the caller once where the switch's breaker lets a command
  -- through, and not at all where it does not.
  pub handle_llm_failure-transfers :
      (answered : Bool) (t : Readings) (fm : FailoverManager)
      → fm.llm.threshold ≤ fm.llm.failures + 1
      → t.logged_at - t.failed_at ≤ fm.llm.reset_timeout
      → t.tested_at - t.failed_at ≤ fm.llm.reset_timeout
      → transfers (handle_llm_failure call_id sanitize_header answered t fm).1
        ≡ (if (allow t.esl_at fm.esl).1 then 1 else 0)
  unfolding handle_llm_failure
  handle_llm_failure-transfers answered t fm h l u =
      rw (note_failure_opens t fm.llm h l u) (transfer_allowed answered t _ _ _)

  -- So does a failure of the recogniser.
  pub handle_stt_failure-transfers :
      (answered : Bool) (t : Readings) (fm : FailoverManager)
      → fm.stt.threshold ≤ fm.stt.failures + 1
      → t.logged_at - t.failed_at ≤ fm.stt.reset_timeout
      → t.tested_at - t.failed_at ≤ fm.stt.reset_timeout
      → transfers (handle_stt_failure call_id sanitize_header answered t fm).1
        ≡ (if (allow t.esl_at fm.esl).1 then 1 else 0)
  unfolding handle_stt_failure
  handle_stt_failure-transfers answered t fm h l u =
      rw (note_failure_opens t fm.stt h l u) (transfer_allowed answered t _ _ _)

  -- A failure below the threshold of a closed breaker sends nothing, keeps the breaker closed with
  -- one failure more, and leaves the other breakers as they were.
  pub handle_llm_failure-below :
      (answered : Bool) (t : Readings) (fm : FailoverManager)
      → fm.llm.state ≡ closed
      → fm.llm.failures + 1 < fm.llm.threshold
      → let (fm', effects, reply) = handle_llm_failure call_id sanitize_header answered t fm in
        (effects ≡ [])
        × (fm'.llm.state ≡ closed)
        × (fm'.llm.failures ≡ fm.llm.failures + 1)
        × (fm'.stt ≡ fm.stt)
        × (fm'.tts ≡ fm.tts)
        × (fm'.esl ≡ fm.esl)
  unfolding handle_llm_failure
  handle_llm_failure-below answered t fm c h =
      let (seen, kept, counted) = note_failure_stays t fm.llm c h in
      rw seen (refl, kept, counted, refl, refl, refl)
