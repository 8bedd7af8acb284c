-- ===== src/Sip/Dialling/Released.antt =====
-- What gateway/sip_uac.go holds after it dialled.
use voiceagent.Base.{
  ℕ, ◌+◌, ◌≡◌, refl, ap, ◌∙◌, not, List, ◌∷◌, some, arith, Text, lit, same_refl, get, put, get-put,
  if_elim,
}
use voiceagent.Calls.Queue.{all_callers, has_call_id}
use voiceagent.Calls.Queue.Taking.{count_if}
use voiceagent.Calls.Control.Counts.{add_caller-count}
use voiceagent.Sip.Ports.{allocate_rtp_port}
use voiceagent.Sip.Hangup.{session_key}
use voiceagent.Sip.Answers.{
  Reply, no_response, timed_out, rejected, not_answered, answered, await_response,
}
use voiceagent.Sip.Dialling.{
  Phone, Copilot, Network, Dialled, no_listener, unresolved, undialled, ended, get_or_create,
  close_listener, hang_up_line, settle, place_call, session_for, outbound_entry, establish,
  conclude, make_outbound_call,
}

-- What a call that is not answered leaves alone.
abbrev pub Same : Phone → Phone → Type 0
Same s t =
    (t.listeners ≡ s.listeners)
    × ((t.connections ≡ s.connections)
        × ((t.sessions ≡ s.sessions) × ((t.queues ≡ s.queues) × (t.agents ≡ s.agents))))

abbrev pub Held : (ℕ → Phone → Type 0) → Phone → Phone × (ℕ × Dialled) → Type 0
Held P s (t, (port, ended (answered r))) = P port t
Held P s (t, (port, ended timed_out)) = Same s t
Held P s (t, (port, ended no_response)) = Same s t
Held P s (t, (port, ended (rejected line))) = Same s t
Held P s (t, (port, ended (not_answered line))) = Same s t
Held P s (t, (port, no_listener)) = Same s t
Held P s (t, (port, unresolved)) = Same s t
Held P s (t, (port, undialled)) = Same s t

pub close_opened : (port : ℕ) (ps : List ℕ) → close_listener port (port ∷ ps) ≡ ps
unfolding close_listener
close_opened port ps = ground arith

abbrev Joined : Phone → ℕ → Phone → Type 0
Joined s port t =
    (t.listeners ≡ port ∷ s.listeners)
    × ((t.connections ≡ s.connections + 1)
        × ((t.sessions ≡ s.sessions) × ((t.queues ≡ s.queues) × (t.agents ≡ s.agents))))

module _ (s t : Phone) (port : ℕ) (joined : Joined s port t) where
  hang_up_line-Same : Same s (hang_up_line port t)
  unfolding hang_up_line
  hang_up_line-Same =
      let (l, (c, (ss, (qs, ag)))) = joined in
      (
        ap (close_listener port) l ∙ close_opened port s.listeners,
        (omega (arith, c), (ss, (qs, ag))),
      )

  settle-Held : (r : Reply) → Held (Joined s) s (settle port t r)
  unfolding settle
  settle-Held (answered r) = joined
  settle-Held no_response = hang_up_line-Same
  settle-Held timed_out = hang_up_line-Same
  settle-Held (rejected line) = hang_up_line-Same
  settle-Held (not_answered line) = hang_up_line-Same

place_call-Held : (net : Network) (s : Phone) → Held (Joined s) s (place_call net s)
unfolding place_call
place_call-Held net s =
    let (pool, port) = allocate_rtp_port s.ports in
    let either = if_elim (Held (Joined s) s) in
    let same : Same s (record s { ports = pool }) = (refl, (refl, (refl, (refl, refl)))) in
    let closed = close_opened port s.listeners in
    let hung_up : Same s
        (record s { ports = pool; listeners = close_listener port (port ∷ s.listeners) }) =
      (closed, (refl, (refl, (refl, refl)))) in
    either _ _ (not net.opens) (λ _. same)
      (λ _.
        either _ _ (not net.resolves) (λ _. hung_up)
          (λ _.
            either _ _ (not net.dials) (λ _. hung_up)
              (λ _.
                settle-Held s
                  (record s {
                    ports = pool;
                    listeners = port ∷ s.listeners;
                    connections = s.connections + 1;
                  })
                  port (refl, (refl, (refl, (refl, refl)))) (await_response net.datagrams))))

settle-copilots : (port : ℕ) (t : Phone) (r : Reply) → (settle port t r).0.copilots ≡ t.copilots
unfolding settle hang_up_line
settle-copilots port t (answered r) = refl
settle-copilots port t no_response = refl
settle-copilots port t timed_out = refl
settle-copilots port t (rejected line) = refl
settle-copilots port t (not_answered line) = refl

place_call-copilots : (net : Network) (s : Phone) → (place_call net s).0.copilots ≡ s.copilots
unfolding place_call
place_call-copilots net s =
    let (pool, port) = allocate_rtp_port s.ports in
    let opened : Phone = record s {
      ports = pool;
      listeners = port ∷ s.listeners;
      connections = s.connections + 1;
    } in
    ground (arith, settle-copilots port opened (await_response net.datagrams))

abbrev pub waiting : Text → Phone → ℕ
waiting call_id s = count_if (has_call_id call_id) (all_callers s.queues)

-- What an answered call has, and what any other leaves alone.
abbrev pub Outcome : Text → Phone → Phone × Dialled → Type 0
Outcome call_id s (t, ended (answered r)) =
    (port : ℕ) × (t.listeners ≡ port ∷ s.listeners)
    × (t.connections ≡ s.connections + 1)
    × (get (session_key call_id (lit "caller")) t.sessions ≡ some (session_for port r))
    × (waiting call_id t ≡ waiting call_id s + 1)
Outcome call_id s (t, ended timed_out) = Same s t
Outcome call_id s (t, ended no_response) = Same s t
Outcome call_id s (t, ended (rejected line)) = Same s t
Outcome call_id s (t, ended (not_answered line)) = Same s t
Outcome call_id s (t, no_listener) = Same s t
Outcome call_id s (t, unresolved) = Same s t
Outcome call_id s (t, undialled) = Same s t

module _ (now : ℕ) (entry_id call_id number agent : Text) where
  conclude-Outcome :
      (s : Phone) (cs : List (Text × Copilot)) (p : Phone × (ℕ × Dialled))
      → Held (Joined (record s { copilots = cs })) (record s { copilots = cs }) p
      → Outcome call_id s (conclude now entry_id call_id number agent p)
  unfolding conclude establish
  conclude-Outcome s cs (t, (port, ended (answered r))) (l, (c, (ss, (qs, ag)))) =
      let key : Text = session_key call_id (lit "caller") in
      (
        port,
        l,
        c,
        ground (arith, get-put key key (session_for port r) t.sessions, same_refl key),
        ground (
          arith,
          add_caller-count call_id now (lit "Outbound") (outbound_entry entry_id call_id number)
              t.queues,
          same_refl call_id,
          ap (λ q. count_if (has_call_id call_id) (all_callers q)) qs,
        ),
      )
  conclude-Outcome s cs (t, (port, ended timed_out)) h = h
  conclude-Outcome s cs (t, (port, ended no_response)) h = h
  conclude-Outcome s cs (t, (port, ended (rejected line))) h = h
  conclude-Outcome s cs (t, (port, ended (not_answered line))) h = h
  conclude-Outcome s cs (t, (port, no_listener)) h = h
  conclude-Outcome s cs (t, (port, unresolved)) h = h
  conclude-Outcome s cs (t, (port, undialled)) h = h

  conclude-copilots :
      (p : Phone × (ℕ × Dialled))
      → (conclude now entry_id call_id number agent p).0.copilots ≡ p.0.copilots
  unfolding conclude establish
  conclude-copilots (t, (port, ended (answered r))) = refl
  conclude-copilots (t, (port, ended timed_out)) = refl
  conclude-copilots (t, (port, ended no_response)) = refl
  conclude-copilots (t, (port, ended (rejected line))) = refl
  conclude-copilots (t, (port, ended (not_answered line))) = refl
  conclude-copilots (t, (port, no_listener)) = refl
  conclude-copilots (t, (port, unresolved)) = refl
  conclude-copilots (t, (port, undialled)) = refl

  -- A call that is not answered, for whatever reason, leaves the listeners, connections, sessions, queues
  -- and agents as they were; an answered one has one listener, one connection and its session, and waits
  -- one time more. Either way the copilot's session is there, and is not ended when it was not.
  pub make_outbound_call-Outcome :
      (caller_id : Text) (net : Network) (s : Phone)
      → let after : Phone × Dialled =
          make_outbound_call now entry_id call_id number caller_id agent net s in
        Outcome call_id s after
        × (get call_id after.0.copilots
            ≡ some (record {
              caller_number = number;
              agent_number = caller_id;
              cancelled = (get_or_create call_id s.copilots).cancelled;
            }))
  unfolding make_outbound_call
  make_outbound_call-Outcome caller_id net s =
      let c : Copilot = record (get_or_create call_id s.copilots) {
        caller_number = number;
        agent_number = caller_id;
      } in
      let cs : List (Text × Copilot) = put call_id c s.copilots in
      let begun : Phone = record s { copilots = cs } in
      (
        conclude-Outcome s cs (place_call net begun) (place_call-Held net begun),
        ap (get call_id) (conclude-copilots (place_call net begun) ∙ place_call-copilots net begun)
            ∙ ground (arith, get-put call_id call_id c s.copilots, same_refl call_id),
      )
