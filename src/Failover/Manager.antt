-- ===== src/Failover/Manager.antt =====
-- The failover manager of gateway/failover.go: what it does when a service fails. The answer of the
-- telephony switch to the transfer command is an argument, and so is each reading of the clock.
pub mod Laws
use voiceagent.Base.{ℕ, ◌*◌, ◌^◌, Bool, true, false, List, [], ◌∷◌, ◌++◌, if◌then◌else◌, Text, lit}
use voiceagent.Failover.Breaker.{
  CircuitBreaker, CircuitState, closed, opened, half_open, new_circuit_breaker, check_state, allow,
  record_failure, record_success,
}

pub record FailoverManager : Type 0 where
  pub llm : CircuitBreaker
  pub stt : CircuitBreaker
  pub tts : CircuitBreaker
  pub esl : CircuitBreaker

-- time.Second in nanoseconds.
abbrev pub seconds : ℕ → ℕ
seconds n = n * 10 ^ 9

unfoldable pub new_failover_manager : FailoverManager
unfolding new_circuit_breaker
new_failover_manager = record {
  llm = new_circuit_breaker 3 (seconds 30);
  stt = new_circuit_breaker 3 (seconds 15);
  tts = new_circuit_breaker 3 (seconds 15);
  esl = new_circuit_breaker 5 (seconds 60);
}

-- What the manager sends: an event to the session's listeners, and commands to the switch. The map
-- of headers is ranged over in any order; the list has the source's.
pub data Effect : Type 0 where
  send_event : Text → Effect
  uuid_setvar : Text → Text → Effect
  uuid_transfer : Effect
  uuid_broadcast : Effect

-- The clock readings of one call, in the order made: where the failure is recorded, where the log
-- line reads the state, where the test reads it, and where the switch's breaker is asked and
-- records a failure.
pub record Readings : Type 0 where
  pub failed_at : ℕ
  pub logged_at : ℕ
  pub tested_at : ℕ
  pub esl_at : ℕ
  pub esl_failed_at : ℕ

abbrev pub is_opened : CircuitState → Bool
is_opened opened = true
is_opened closed = false
is_opened half_open = false

-- The session's id and `sanitizeHeader` are gateway/main.go's and gateway/actions.go's.
module _ (call_id : Text) (sanitize_header : Text → Text) where
  -- transferToHuman; `answered` says whether the transfer command got an answer.
  unfoldable pub transfer_to_human :
      Bool → Readings → Text → Text → FailoverManager → FailoverManager × List Effect
  transfer_to_human answered t reason summary fm =
      let (esl', ok) = allow t.esl_at fm.esl in
      if ok
      then (
        record fm {
          esl = if answered then record_success esl' else record_failure t.esl_failed_at esl';
        },
        uuid_setvar (lit "X-Failover-Reason") reason
            ∷ uuid_setvar (lit "X-Failover-Summary") (sanitize_header summary)
            ∷ uuid_setvar (lit "X-Failover-CallID") call_id
            ∷ uuid_transfer
            ∷ [],
      )
      else (record fm { esl = esl' }, [])

  -- The record of the failure, and the two looks at the state.
  unfoldable pub note_failure : Readings → CircuitBreaker → CircuitBreaker × CircuitState
  note_failure t cb =
      check_state t.tested_at (check_state t.logged_at (record_failure t.failed_at cb)).0

  unfoldable pub handle_llm_failure :
      Bool → Readings → FailoverManager → FailoverManager × List Effect × Text
  handle_llm_failure answered t fm =
      let (llm', s) = note_failure t fm.llm in
      let (moved, effects) =
        transfer_to_human answered t (lit "llm_failure")
          (lit "AI service unavailable — transferring to agent queue") (record fm { llm = llm' }) in
      if is_opened s
      then (
        moved,
        send_event (lit "LLM service unavailable. Transferring to human agent.") ∷ effects,
        lit
            "I'm having some difficulty right now. Let me connect you with a team member who can help.",
      )
      else (record fm { llm = llm' }, [], lit "One moment please while I look that up for you.")

  unfoldable pub handle_stt_failure :
      Bool → Readings → FailoverManager → FailoverManager × List Effect
  handle_stt_failure answered t fm =
      let (stt', s) = note_failure t fm.stt in
      let (moved, effects) =
        transfer_to_human answered t (lit "stt_failure") (lit "Speech recognition service down")
          (record fm { stt = stt' }) in
      if is_opened s
      then (
        moved,
        send_event (lit "Speech recognition unavailable. Transferring to human agent.") ∷ effects,
      )
      else (record fm { stt = stt' }, [])

  -- The answer to the tone command is not looked at.
  unfoldable pub handle_tts_failure :
      Readings → FailoverManager → FailoverManager × List Effect × Text
  handle_tts_failure t fm =
      let tts' = (check_state t.logged_at (record_failure t.failed_at fm.tts)).0 in
      let (esl', ok) = allow t.esl_at fm.esl in
      (record fm { tts = tts'; esl = esl' }, if ok then uuid_broadcast ∷ [] else [], [])
