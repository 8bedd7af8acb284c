-- ===== src/Sip/Arrival/Placed.antt =====
-- What gateway/sipserver.go holds of a call after its INVITE.
use voiceagent.Base.{
  ℕ, ◌+◌, ◌≡◌, refl, ap, ◌∙◌, sym, subst, true, false, not, ◌∷◌, Option, none, some, if◌then◌else◌,
  arith, Text, lit, same, same_refl, get, get-put, ◌⊎◌, inl, inr, Option-cases, if_elim, ℤ,
}
use voiceagent.Calls.Queue.{all_callers, has_call_id}
use voiceagent.Calls.Queue.Taking.{count_if}
use voiceagent.Calls.Control.Counts.{add_caller-count}
use voiceagent.Inbound.SipAuth.{SipTrunkEntry}
use voiceagent.Sip.Ports.{allocate_rtp_port}
use voiceagent.Sip.Hangup.{LiveCalls, session_key}
use voiceagent.Sip.Bodies.{parse_sdp_offer}
use voiceagent.Sip.Arrival.{
  Invite, Surroundings, Copilot, Server, Arrived, responded, unanswered, crashed, call_type, bodies,
  metadata, role_of, identified, destination, queue_for, caller_entry, wait_in, caller_number_of,
  enqueue, register_call, with_offer, accept_call,
}

abbrev pub waiting : Text → LiveCalls → ℕ
waiting call_id l = count_if (has_call_id call_id) (all_callers l.queues)

abbrev pub role_in : Surroundings → Invite → Text
role_in env req = role_of (metadata env (bodies req).1)

abbrev pub key_in : Surroundings → Invite → Text
key_in env req = session_key req.call_id (role_in env req)

abbrev pub next_port : Server → ℕ
next_port s = (allocate_rtp_port s.pool).1

-- An open listener and a session at the next port.
abbrev pub Registered : Surroundings → Invite → Server → Server → Type 0
Registered env req s t =
    (t.listeners ≡ next_port s ∷ s.listeners)
    × (get (key_in env req) t.live.sessions ≡ some (next_port s))

-- A refused call, one that is registered and neither answered nor queued, or an answered one.
abbrev pub Placed : Surroundings → Invite → Server → Server × Arrived → Type 0
Placed env req s (t, a) =
    (((a ≡ responded 488) ⊎ (a ≡ responded 500))
      × ((t.live ≡ s.live) × ((t.listeners ≡ s.listeners) × (t.copilots ≡ s.copilots))))
    ⊎ ((((a ≡ unanswered) ⊎ (a ≡ crashed))
          × (Registered env req s t
              × ((t.live.queues ≡ s.live.queues) × (t.live.announcer ≡ s.live.announcer))))
        ⊎ ((a ≡ responded 200)
            × (Registered env req s t
                × (waiting req.call_id t.live
                    ≡ waiting req.call_id s.live
                      + (if same (role_in env req) (lit "caller") then 1 else 0)))))

module _ (env : Surroundings) (trunk : Option SipTrunkEntry) (kind : Text) (req : Invite)
    (c : Copilot) where
  -- A call that goes to a queue, after its registration.
  abbrev Queued : Server → Server × Arrived → Type 0
  Queued s (t, a) =
      (t.listeners ≡ s.listeners)
      × ((t.live.sessions ≡ s.live.sessions)
          × ((((a ≡ unanswered) ⊎ (a ≡ crashed))
                × ((t.live.queues ≡ s.live.queues) × (t.live.announcer ≡ s.live.announcer)))
              ⊎ ((a ≡ responded 200)
                  × (waiting req.call_id t.live ≡ waiting req.call_id s.live + 1))))

  module _ (s : Server) where
    enqueue_unanswered :
        destination env trunk req ≡ none → enqueue env trunk kind req c s ≡ (s, unanswered)
    unfolding enqueue
    enqueue_unanswered e = ground (arith, e)

    enqueue_crashed :
        (dest : Text × Text)
        → destination env trunk req ≡ some dest
        → caller_number_of req.call_id c.caller_number ≡ none
        → enqueue env trunk kind req c s ≡ (s, crashed)
    unfolding enqueue
    enqueue_crashed dest e e' = ground (arith, e, e')

    enqueue_answered :
        (dest : Text × Text) (number : Text)
        → destination env trunk req ≡ some dest
        → caller_number_of req.call_id c.caller_number ≡ some number
        → enqueue env trunk kind req c s ≡ (
          record s { live = wait_in env kind (queue_for dest) req.call_id number s.live },
          responded 200,
        )
    unfolding enqueue
    enqueue_answered dest number e e' = ground (arith, e, e')

    wait_in-waiting :
        (queue number : Text)
        → waiting req.call_id (wait_in env kind queue req.call_id number s.live)
          ≡ waiting req.call_id s.live + 1
    unfolding wait_in
    wait_in-waiting queue number = ground (
      arith,
      add_caller-count req.call_id env.now queue
          (caller_entry env.entry_id req.call_id number
            (if same kind (lit "siprec") then lit "SIPREC observation" else lit "Incoming call"))
          s.live.queues,
      same_refl req.call_id,
    )

    enqueue-Queued : Queued s (enqueue env trunk kind req c s)
    unfolding wait_in
    enqueue-Queued = elim (Option-cases (destination env trunk req)) [
      | inl e ↦
          subst (Queued s) (sym (enqueue_unanswered e)) (refl, (refl, inl (inl refl, (refl, refl))))
      | inr (dest, e) ↦ elim (Option-cases (caller_number_of req.call_id c.caller_number)) [
        | inl e' ↦
            subst (Queued s) (sym (enqueue_crashed dest e e'))
              (refl, (refl, inl (inr refl, (refl, refl))))
        | inr (number, e') ↦
            subst (Queued s) (sym (enqueue_answered dest number e e'))
              (refl, (refl, inr (refl, wait_in-waiting (queue_for dest) number)))
      ]
    ]

module _ (env : Surroundings) (req : Invite) (s : Server) where
  abbrev registered : Text → Copilot → Server
  registered kind c =
      register_call kind (role_in env req) req c (next_port s)
        (record s { pool = (allocate_rtp_port s.pool).0 })

  registered-session :
      (kind : Text) (c : Copilot)
      → get (key_in env req) (registered kind c).live.sessions ≡ some (next_port s)
  unfolding register_call
  registered-session kind c = ground (
    arith,
    get-put (key_in env req) (key_in env req) (next_port s) s.live.sessions,
    same_refl (key_in env req),
  )

  Queued-Placed :
      (trunk : Option SipTrunkEntry) (kind : Text) (c : Copilot)
      → same (role_in env req) (lit "caller") ≡ true
      → (p : Server × Arrived) → Queued env trunk kind req c (registered kind c) p
      → Placed env req s p
  unfolding register_call
  Queued-Placed trunk kind c e (t, a) (l, (ss, inl (bad, (qs, an)))) =
      inr (inl (bad, ((l, ap (get (key_in env req)) ss ∙ registered-session kind c), (qs, an))))
  Queued-Placed trunk kind c e (t, a) (l, (ss, inr (ok, n))) = inr (
      inr
        (ok, ((l, ap (get (key_in env req)) ss ∙ registered-session kind c), ground (arith, n, e))))

  other-Placed :
      (kind : Text) (c : Copilot)
      → same (role_in env req) (lit "caller") ≡ false
      → Placed env req s (registered kind c, responded 200)
  unfolding register_call
  other-Placed kind c e = inr (inr (refl, ((refl, registered-session kind c), ground (arith, e))))

  with_offer-Placed :
      (trunk : Option SipTrunkEntry) (kind : Text) (offer : Option (Text × (ℤ × Text)))
      → Placed env req s (with_offer env trunk kind (metadata env (bodies req).1) req s offer)
  unfolding with_offer
  with_offer-Placed trunk kind none = inl (inl refl, (refl, (refl, refl)))
  with_offer-Placed trunk kind (some offer) =
      let either = if_elim (Placed env req s) in
      let c : Copilot = identified req (metadata env (bodies req).1) (get req.call_id s.copilots) in
      either _ _ (not env.opens) (λ _. inl (inr refl, (refl, (refl, refl))))
        (λ _.
          either _ _ (same (role_in env req) (lit "caller"))
            (λ e.
              Queued-Placed trunk kind c e (enqueue env trunk kind req c (registered kind c))
                (enqueue-Queued env trunk kind req c (registered kind c)))
            (λ e. other-Placed kind c e))

  -- An INVITE that is refused with 488 or 500 changes nothing but the next port. Every other one has an
  -- open listener and a session: a caller who is answered waits exactly one time more, one in another role
  -- as often as before, and when the menu hangs up, or the handler panics, there is no answer and no wait.
  pub accept_call-Placed :
      (type_trunk route_trunk : Option SipTrunkEntry)
      → Placed env req s (accept_call env type_trunk route_trunk req s)
  unfolding accept_call
  accept_call-Placed type_trunk route_trunk =
      with_offer-Placed route_trunk (call_type env type_trunk req)
        (parse_sdp_offer env.sdp_of (bodies req).0)
