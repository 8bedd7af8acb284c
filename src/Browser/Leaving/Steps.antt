-- ===== src/Browser/Leaving/Steps.antt =====
-- What the steps of a hangup in gateway/webrtc.go leave as it is.
use voiceagent.Base.{
  ℕ, ◌<◌, ◌≡◌, refl, ap, false, [], ◌∷◌, ◌++◌, none, arith, Text, lit, same, same_iff, same_refl,
  get, get-del, length, Bool-cases, trim_prefix, trim_prefix-append, inl, inr,
}
use voiceagent.Calls.Queue.{remove_caller_by_call_id}
use voiceagent.Sip.Hangup.{bridge_id}
use voiceagent.Browser.Leaving.{
  Desk, send_bye, end_copilot, leave_bridge, leave_queue, end_bridged, handle_hangup,
}

longer_ne : (s t : Text) → length s < length t → same s t ≡ false
longer_ne s t h = elim (Bool-cases (same s t)) [
  | inl e ↦ absurd (omega (arith, ap length ((same_iff s t).0 e), h))
  | inr e ↦ e
]

abbrev pub told : ℕ → Text → Desk → Desk
told now call_id d = record d {
  live = leave_bridge now (bridge_id call_id) d.live;
  states = d.states ++ ((call_id, lit "ended") ∷ []);
}

abbrev pub hung_up : ℕ → (Text → Text) → Text → Desk → Desk
hung_up now source_of call_id d = handle_hangup now source_of (bridge_id call_id) d

module _ (now : ℕ) (source_of : Text → Text) (call_id : Text) (d : Desk) where
  pub hung_up-steps :
      hung_up now source_of call_id d
      ≡ leave_queue call_id (end_copilot call_id (send_bye source_of call_id (told now call_id d)))
  unfolding handle_hangup end_bridged
  hung_up-steps =
      let call : trim_prefix (bridge_id call_id) (lit "bridge-") ≡ call_id =
        trim_prefix-append (lit "bridge-") call_id in
      let other : same call_id (bridge_id call_id) ≡ false =
        longer_ne call_id (bridge_id call_id) (omega arith) in
      rw (call, other) refl

  pub told-sessions : (told now call_id d).live.sessions ≡ d.live.sessions
  unfolding leave_bridge
  told-sessions = ground arith

  pub told-closed : (told now call_id d).live.closed ≡ d.live.closed
  unfolding leave_bridge
  told-closed = ground arith

  pub told-queues : (told now call_id d).live.queues ≡ d.live.queues
  unfolding leave_bridge
  told-queues = ground arith

  pub told-announcer : (told now call_id d).live.announcer ≡ d.live.announcer
  unfolding leave_bridge
  told-announcer = ground arith

  pub told-ringing : (told now call_id d).live.ringing ≡ d.live.ringing
  unfolding leave_bridge
  told-ringing = ground arith

  pub told-bridges : get (bridge_id call_id) (told now call_id d).live.bridges ≡ none
  unfolding leave_bridge
  told-bridges = ground (
    arith,
    get-del (bridge_id call_id) (bridge_id call_id) d.live.bridges,
    same_refl (bridge_id call_id),
  )

module _ (source_of : Text → Text) (call_id : Text) (d : Desk) where
  abbrev pub behind : Desk
  behind = leave_queue call_id (end_copilot call_id (send_bye source_of call_id d))

  pub behind-bridges : behind.live.bridges ≡ d.live.bridges
  unfolding leave_queue end_copilot send_bye
  behind-bridges = ground arith

  pub behind-sessions : behind.live.sessions ≡ d.live.sessions
  unfolding leave_queue end_copilot send_bye
  behind-sessions = ground arith

  pub behind-announcer : behind.live.announcer ≡ d.live.announcer
  unfolding leave_queue end_copilot send_bye
  behind-announcer = ground arith

  pub behind-ringing : behind.live.ringing ≡ d.live.ringing
  unfolding leave_queue end_copilot send_bye
  behind-ringing = ground arith

  pub behind-queues : behind.live.queues ≡ remove_caller_by_call_id call_id d.live.queues
  unfolding leave_queue end_copilot send_bye
  behind-queues = ground arith

  pub behind-byes : behind.byes ≡ (send_bye source_of call_id d).byes
  unfolding leave_queue end_copilot
  behind-byes = ground arith

  pub behind-states : behind.states ≡ d.states
  unfolding leave_queue end_copilot send_bye
  behind-states = ground arith
