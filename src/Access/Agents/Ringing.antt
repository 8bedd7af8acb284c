-- ===== src/Access/Agents/Ringing.antt =====
-- Streams, rings and profiles of gateway/agent_session.go.
use voiceagent.Base.{
  ℕ, ◌≡◌, refl, ap, Bool, true, false, List, [], ◌∷◌, ◌++◌, Option, none, some, if◌then◌else◌, map,
  arith, Text, lit, same, same_refl, is_empty, get, put, get-put,
}
use voiceagent.Access.Agents.{
  AgentOnlineSession, AgentSessionManager, RingEvent, EventChan, linked, get_agent_by_user_id,
  go_online, update_status, handle_agent_me, subscribe, handle_agent_sse, offer_event, ring_agent,
}

offer-extend :
    (e : RingEvent) (chans : List EventChan)
    → map (offer_event e) (chans ++ ([] ∷ [])) ≡ map (offer_event e) chans ++ ((e ∷ []) ∷ [])
unfolding offer_event
offer-extend e [] = refl
offer-extend e (ch ∷ chans) = ap (λ rest. offer_event e ch ∷ rest) (offer-extend e chans)

-- When an agent who is online opens a stream and is then rung, the new stream holds the event alone, the
-- agent's earlier streams are offered it, and every other agent's session stays as it is.
pub ring_agent-handle_agent_sse :
    (agent_of : Text → Option Text) (user id j : Text) (e : RingEvent) (m : AgentSessionManager)
    (s : AgentOnlineSession)
    → get_agent_by_user_id agent_of m user ≡ some id
    → get id m.sessions ≡ some s
    → let after : AgentSessionManager = ring_agent id e (handle_agent_sse agent_of true user m).0 in
      get j after.sessions ≡ (
        if same id j
        then some (record s { sse_chans = map (offer_event e) s.sse_chans ++ ((e ∷ []) ∷ []) })
        else get j m.sessions)
unfolding ring_agent handle_agent_sse subscribe
ring_agent-handle_agent_sse agent_of user id j e m s profile on =
    let open_s : AgentOnlineSession = record s { sse_chans = s.sse_chans ++ ([] ∷ []) } in
    let rung : AgentOnlineSession = record open_s {
      sse_chans = map (offer_event e) open_s.sse_chans;
    } in
    ground (
      arith,
      profile,
      on,
      same_refl id,
      offer-extend e s.sse_chans,
      get-put id id open_s m.sessions,
      get-put id j open_s m.sessions,
      get-put id j rung (put id open_s m.sessions),
    )

-- With a database, two users whom no agent has are both told that they are linked, to an agent without
-- an id, and share the one session that the first of them opened.
pub handle_agent_me_shares :
    (written again : Bool) (agent_of : Text → Option Text) (now later : ℕ) (first second : Text)
    (m : AgentSessionManager)
    → m.has_db ≡ true
    → get [] m.sessions ≡ none
    → is_empty first ≡ false
    → is_empty second ≡ false
    → agent_of first ≡ none
    → agent_of second ≡ none
    → let after : AgentSessionManager = (handle_agent_me written agent_of now first m).0 in
      (handle_agent_me again agent_of later second after ≡ (after, linked []))
      × (get [] after.sessions
          ≡ some (record {
            agent_id = [];
            user_id = first;
            status = lit "Available";
            sse_chans = [];
            login_time = now;
          }))
unfolding handle_agent_me get_agent_by_user_id go_online update_status
handle_agent_me_shares written again agent_of now later first second m db off f g no_f no_g =
    let s : AgentOnlineSession = record {
      agent_id = [];
      user_id = first;
      status = lit "Available";
      sse_chans = [];
      login_time = now;
    } in
    (
      ground (arith, db, off, f, g, no_f, no_g, get-put [] [] s m.sessions, same_refl []),
      ground (arith, db, off, f, no_f, get-put [] [] s m.sessions, same_refl []),
    )
