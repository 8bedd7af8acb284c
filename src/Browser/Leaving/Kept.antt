-- ===== src/Browser/Leaving/Kept.antt =====
-- What the hangup of an agent in gateway/webrtc.go ends, and what it leaves.
use voiceagent.Base.{
  ℕ, ◌-◌, ◌≡◌, refl, ap, ◌∙◌, false, [], ◌∷◌, ◌++◌, none, some, arith, Text, lit, same_refl, get,
  get-put, Bool-cases, inl, inr, ◌⊎◌, sym, subst, append-nil, Option, List, All, has_prefix,
  is_empty, if◌then◌else◌, true,
}
use voiceagent.Calls.Queue.{all_callers, has_call_id, remove_caller_by_call_id}
use voiceagent.Calls.Queue.Taking.{count_if, remove_caller_by_call_id-count}
use voiceagent.Sip.Hangup.{bridge_id}
use voiceagent.Browser.Leaving.{
  Copilot, Desk, first_session, cancel_all, rtp_ports, send_bye, end_copilot, leave_queue,
}
use voiceagent.Browser.Leaving.Steps.{
  told, hung_up, hung_up-steps, told-sessions, told-closed, told-queues, told-announcer,
  told-ringing, told-bridges, behind, behind-bridges, behind-sessions, behind-announcer,
  behind-ringing, behind-queues, behind-byes, behind-states,
}

-- The port of a copilot's RTP session, if it has one, is closed and the session is ended.
abbrev RtpEnded : Option ℕ → Copilot → List ℕ → List ℕ → Type 0
RtpEnded none c closed closed' = closed' ≡ closed
RtpEnded (some port) c closed closed' = (c.rtp_cancelled ≡ true) × (closed' ≡ closed ++ (port ∷ []))

-- The copilot before and after, and the ports that are closed before and after.
abbrev pub Ended : Option Copilot → Option Copilot → List ℕ → List ℕ → Type 0
Ended none after closed closed' = (after ≡ none) × (closed' ≡ closed)
Ended (some c) after closed closed' =
    (c' : Copilot) × ((after ≡ some c')
      × ((c'.cancelled ≡ true) × RtpEnded c.rtp_port c' closed closed'))

-- A BYE goes to the first session of the call, if it is known where that came from.
abbrev pub ByeSent : (Text → Text) → Text → List (Text × ℕ) → List Text → List Text → Type 0
ByeSent source_of call_id sessions byes byes' =
    (All (λ (s : Text × ℕ). has_prefix s.0 call_id ≡ false) sessions × (byes' ≡ byes))
    ⊎ ((before : List (Text × ℕ)) × (k : Text) × (port : ℕ) × (after : List (Text × ℕ)) × (sessions
          ≡ before ++ ((k, port) ∷ after))
        × All (λ (s : Text × ℕ). has_prefix s.0 call_id ≡ false) before
        × (has_prefix k call_id ≡ true)
        × (byes' ≡ (if is_empty (source_of k) then byes else byes ++ (k ∷ []))))

rtp-ended :
    (c : Copilot) (closed : List ℕ)
    → RtpEnded c.rtp_port (cancel_all c) closed (closed ++ rtp_ports c)
unfolding cancel_all
rtp-ended c closed = by_port c.rtp_port
  where
    by_port :
        (p : Option ℕ)
        → RtpEnded p
            (record c {
              cancelled = true;
              rtp_port = p;
              rtp_cancelled = elim p [ none ↦ c.rtp_cancelled | some port ↦ true ];
            })
            closed
            (closed ++ elim p [ none ↦ [] | some port ↦ port ∷ [] ])
    by_port none = append-nil closed
    by_port (some port) = (refl, refl)

end_copilot-Ended :
    (call_id : Text) (d : Desk) (o : Option Copilot)
    → get call_id d.copilots ≡ o
    → Ended o
        (get call_id (end_copilot call_id d).copilots)
        d.live.closed
        (end_copilot call_id d).live.closed
unfolding end_copilot
end_copilot-Ended call_id d none e = (ground (arith, e), ground (arith, e))
end_copilot-Ended call_id d (some c) e =
    let ports : (end_copilot call_id d).live.closed ≡ d.live.closed ++ rtp_ports c =
      ground (arith, e) in
    (
      cancel_all c,
      (
        ground (arith, e, get-put call_id call_id (cancel_all c) d.copilots, same_refl call_id),
        (
          unfold cancel_all in refl,
          subst (λ closed. RtpEnded c.rtp_port (cancel_all c) d.live.closed closed) (sym ports)
              (rtp-ended c d.live.closed),
        ),
      ),
    )

behind-Ended :
    (source_of : Text → Text) (call_id : Text) (d : Desk)
    → Ended
        (get call_id d.copilots)
        (get call_id (behind source_of call_id d).copilots)
        d.live.closed
        (behind source_of call_id d).live.closed
unfolding leave_queue
behind-Ended source_of call_id d =
    let sent : Desk = send_bye source_of call_id d in
    let copilots : sent.copilots ≡ d.copilots = unfold send_bye in ground arith in
    let closed : sent.live.closed ≡ d.live.closed = unfold send_bye in ground arith in
    subst
      (λ cs.
        Ended (get call_id cs) (get call_id (behind source_of call_id d).copilots) d.live.closed
          (behind source_of call_id d).live.closed)
      copilots
      (subst
        (λ ports.
          Ended (get call_id sent.copilots) (get call_id (behind source_of call_id d).copilots)
            ports (behind source_of call_id d).live.closed)
        closed (end_copilot-Ended call_id sent (get call_id sent.copilots) refl))

First : Text → List (Text × ℕ) → Option Text → Type 0
First call_id sessions o =
    ((o ≡ none) × All (λ (s : Text × ℕ). has_prefix s.0 call_id ≡ false) sessions)
    ⊎ ((before : List (Text × ℕ)) × (k : Text) × (port : ℕ) × (after : List (Text × ℕ)) × (sessions
          ≡ before ++ ((k, port) ∷ after))
        × All (λ (s : Text × ℕ). has_prefix s.0 call_id ≡ false) before
        × (has_prefix k call_id ≡ true)
        × (o ≡ some k))

first_session-First :
    (call_id : Text) (sessions : List (Text × ℕ))
    → First call_id sessions (first_session call_id sessions)
unfolding first_session First
first_session-First call_id [] = inl (refl, tt)
first_session-First call_id ((k, port) ∷ m) = elim (Bool-cases (has_prefix k call_id)) [
  | inl e ↦ inr ([], k, port, m, refl, tt, e, ground (arith, e))
  | inr e ↦ elim (first_session-First call_id m) [
    | inl (off, others) ↦ inl (ground (arith, e, off), (e, others))
    | inr (before, l, p, after, split, others, named, found) ↦ inr (
      (k, port) ∷ before,
      l,
      p,
      after,
      ap (λ r. (k, port) ∷ r) split,
      (e, others),
      named,
      ground (arith, e, found),
    )
  ]
]

send_bye-ByeSent :
    (source_of : Text → Text) (call_id : Text) (d : Desk)
    → ByeSent source_of call_id d.live.sessions d.byes (send_bye source_of call_id d).byes
unfolding send_bye First
send_bye-ByeSent source_of call_id d = elim (first_session-First call_id d.live.sessions) [
  | inl (off, others) ↦ inl (others, ground (arith, off))
  | inr (before, k, port, after, split, others, named, found) ↦
      inr (before, k, port, after, split, others, named, ground (arith, found))
]

-- A hangup of a call's bridge ends the bridge and one wait in the queue, cancels the copilot and its RTP
-- session, whose port it closes, tells the browsers that the call ended, and sends a BYE to the first
-- session of the call, where it is known where that came from. It leaves every session of the SIP
-- server, the announcements and the rings as they were.
pub handle_hangup_keeps :
    (now : ℕ) (source_of : Text → Text) (call_id : Text) (d : Desk)
    → let after : Desk = hung_up now source_of call_id d in
      (get (bridge_id call_id) after.live.bridges ≡ none)
      × (Ended (get call_id d.copilots) (get call_id after.copilots) d.live.closed after.live.closed
          × (ByeSent source_of call_id d.live.sessions d.byes after.byes
              × ((after.states ≡ d.states ++ ((call_id, lit "ended") ∷ []))
                  × ((count_if (has_call_id call_id) (all_callers after.live.queues)
                        ≡ count_if (has_call_id call_id) (all_callers d.live.queues) - 1)
                      × ((after.live.sessions ≡ d.live.sessions)
                          × ((after.live.announcer ≡ d.live.announcer)
                              × (after.live.ringing ≡ d.live.ringing)))))))
handle_hangup_keeps now source_of call_id d =
    let t : Desk = told now call_id d in
    let closed : t.live.closed ≡ d.live.closed = told-closed now source_of call_id d in
    let sessions : t.live.sessions ≡ d.live.sessions = told-sessions now source_of call_id d in
    rw (hung_up-steps now source_of call_id d) (
      ap (get (bridge_id call_id)) (behind-bridges source_of call_id t)
          ∙ told-bridges now source_of call_id d,
      (
        subst
            (λ ports.
              Ended (get call_id d.copilots) (get call_id (behind source_of call_id t).copilots)
                ports (behind source_of call_id t).live.closed)
            closed (behind-Ended source_of call_id t),
        (
          subst (λ byes. ByeSent source_of call_id d.live.sessions d.byes byes)
              (sym (behind-byes source_of call_id t))
              (subst (λ ss. ByeSent source_of call_id ss d.byes (send_bye source_of call_id t).byes)
                sessions (send_bye-ByeSent source_of call_id t)),
          (
            behind-states source_of call_id t,
            (
              ap (λ q. count_if (has_call_id call_id) (all_callers q))
                    (behind-queues source_of call_id t
                      ∙ ap (remove_caller_by_call_id call_id) (told-queues now source_of call_id d))
                  ∙ remove_caller_by_call_id-count call_id d.live.queues,
              (
                behind-sessions source_of call_id t ∙ sessions,
                (
                  behind-announcer source_of call_id t ∙ told-announcer now source_of call_id d,
                  behind-ringing source_of call_id t ∙ told-ringing now source_of call_id d,
                ),
              ),
            ),
          ),
        ),
      ),
    )
