-- ===== src/Access/Agents/Sound.antt =====
-- What holds of every session of gateway/agent_session.go, whatever the requests.
use voiceagent.Base.{
  ℕ, ◌≤◌, ◌≡◌, refl, sym, subst, Bool, true, not, List, [], ◌∷◌, ◌++◌, Option, none, some, length,
  length-append, map, All, arith, Text, lit, same, same_iff, is_empty, get, put, get-put, if_elim,
  Bool-cases, Option-cases, inl, inr,
}
use voiceagent.Access.Agents.{
  AgentOnlineSession, AgentSessionManager, RingEvent, EventChan, new_agent_session_manager,
  update_status, get_agent_by_user_id, go_online, handle_agent_me, is_valid_status,
  set_session_status, handle_update_status, subscribe, handle_agent_sse, AgentAnswer, linked,
  unlinked, failed, offer_event, ring_agent,
}

abbrev IsShort : EventChan → Type 0
IsShort ch = length ch ≤ 10

-- The session stands under its agent, its status is one of the five, and no channel holds more than 10
-- events.
abbrev pub IsSound : Text → AgentOnlineSession → Type 0
IsSound id s = (s.agent_id ≡ id) × ((is_valid_status s.status ≡ true) × All IsShort s.sse_chans)

abbrev pub AllSound : List (Text × AgentOnlineSession) → Type 0
AllSound sessions = (id : Text) (s : AgentOnlineSession) → get id sessions ≡ some s → IsSound id s

abbrev pub Sound : AgentSessionManager → Type 0
Sound m = AllSound m.sessions

-- A session that is sound may be put for its agent.
put-AllSound :
    (sessions : List (Text × AgentOnlineSession)) (id : Text) (s : AgentOnlineSession)
    → AllSound sessions
    → IsSound id s
    → AllSound (put id s sessions)
put-AllSound sessions id s sound here j t h = elim (Bool-cases (same id j)) [
  | inl e ↦
      let is_t : s ≡ t = ground (arith, h, e, get-put id j s sessions) in
      let is_j : id ≡ j = (same_iff id j).0 e in
      subst (λ k. IsSound k t) is_j (subst (λ u. IsSound id u) is_t here)
  | inr e ↦ sound j t (ground (arith, h, e, get-put id j s sessions))
]

update_status-sessions :
    (written : Bool) (status id : Text) (m : AgentSessionManager)
    → (update_status written status id m).sessions ≡ m.sessions
unfolding update_status
update_status-sessions written status id m = ground arith

put_chans-Sound :
    (m : AgentSessionManager) (id : Text) (s : AgentOnlineSession) (chans : List EventChan)
    → Sound m
    → get id m.sessions ≡ some s
    → All IsShort chans
    → Sound (record m { sessions = put id (record s { sse_chans = chans }) m.sessions })
put_chans-Sound m id s chans sound on short =
    let (a, (b, c)) = sound id s on in
    put-AllSound m.sessions id (record s { sse_chans = chans }) sound (a, (b, short))

available : is_valid_status (lit "Available") ≡ true
unfolding is_valid_status same
available = refl

go_online-Sound :
    (written : Bool) (now : ℕ) (user id : Text) (m : AgentSessionManager)
    → Sound m
    → Sound (go_online written now user id m)
unfolding go_online
go_online-Sound written now user id m sound = elim (Option-cases (get id m.sessions)) [
  | inr (t, on) ↦
      let same_m : go_online written now user id m ≡ m = ground (arith, on) in
      subst Sound (sym same_m) sound
  | inl off ↦
      let s : AgentOnlineSession = record {
        agent_id = id;
        user_id = user;
        status = lit "Available";
        sse_chans = [];
        login_time = now;
      } in
      let shape : (go_online written now user id m).sessions ≡ put id s m.sessions = ground (
        arith,
        off,
        update_status-sessions written (lit "Available") id
            (record m { sessions = put id s m.sessions }),
      ) in
      subst AllSound (sym shape) (put-AllSound m.sessions id s sound (refl, (available, tt)))
]

set_session_status-Sound :
    (status id : Text) (m : AgentSessionManager)
    → is_valid_status status ≡ true
    → Sound m
    → Sound (set_session_status status id m)
unfolding set_session_status
set_session_status-Sound status id m valid sound = elim (Option-cases (get id m.sessions)) [
  | inl off ↦
      let shape : set_session_status status id m ≡ m = ground (arith, off) in
      subst Sound (sym shape) sound
  | inr (s, on) ↦
      let (a, (b, c)) = sound id s on in
      let s' : AgentOnlineSession = record s { status = status } in
      let shape : (set_session_status status id m).sessions ≡ put id s' m.sessions =
        ground (arith, on) in
      subst AllSound (sym shape) (put-AllSound m.sessions id s' sound (a, (valid, c)))
]

set_status-Sound :
    (written : Bool) (status id : Text) (m : AgentSessionManager)
    → is_valid_status status ≡ true
    → Sound m
    → Sound (set_session_status status id (update_status written status id m))
set_status-Sound written status id m valid sound =
    set_session_status-Sound status id (update_status written status id m) valid
      (subst AllSound (sym (update_status-sessions written status id m)) sound)

IsShort-extend : (chans : List EventChan) → All IsShort chans → All IsShort (chans ++ ([] ∷ []))
IsShort-extend [] h = (omega arith, tt)
IsShort-extend (ch ∷ chans) (h, hs) = (h, IsShort-extend chans hs)

subscribe-Sound : (id : Text) (m : AgentSessionManager) → Sound m → Sound (subscribe id m)
unfolding subscribe
subscribe-Sound id m sound = elim (Option-cases (get id m.sessions)) [
  | inl off ↦ let e : subscribe id m ≡ m = ground (arith, off) in subst Sound (sym e) sound
  | inr (s, on) ↦
      let chans : List EventChan = s.sse_chans ++ ([] ∷ []) in
      let e : subscribe id m
          ≡ record m { sessions = put id (record s { sse_chans = chans }) m.sessions } =
        ground (arith, on) in
      subst Sound (sym e)
        (put_chans-Sound m id s chans sound on (IsShort-extend s.sse_chans (sound id s on).1.1))
]

offer_event-IsShort : (e : RingEvent) (ch : EventChan) → IsShort ch → IsShort (offer_event e ch)
unfolding offer_event
offer_event-IsShort e ch h = ground (arith, length-append ch (e ∷ []))

IsShort-offer :
    (e : RingEvent) (chans : List EventChan)
    → All IsShort chans
    → All IsShort (map (offer_event e) chans)
IsShort-offer e [] h = tt
IsShort-offer e (ch ∷ chans) (h, hs) = (offer_event-IsShort e ch h, IsShort-offer e chans hs)

ring_agent-Sound :
    (id : Text) (e : RingEvent) (m : AgentSessionManager) → Sound m → Sound (ring_agent id e m)
unfolding ring_agent
ring_agent-Sound id e m sound = elim (Option-cases (get id m.sessions)) [
  | inl off ↦ let q : ring_agent id e m ≡ m = ground (arith, off) in subst Sound (sym q) sound
  | inr (s, on) ↦
      let chans : List EventChan = map (offer_event e) s.sse_chans in
      let q : ring_agent id e m
          ≡ record m { sessions = put id (record s { sse_chans = chans }) m.sessions } =
        ground (arith, on) in
      subst Sound (sym q)
        (put_chans-Sound m id s chans sound on (IsShort-offer e s.sse_chans (sound id s on).1.1))
]

-- A request of one of the three handlers, a ring of the distributor, or another writer of the table of
-- agents, which changes the status of a row. `agent_of` is what the table answers at that time, and the
-- first argument of a request that writes is whether its statement succeeds.
pub data AgentStep : Type 0 where
  me : Bool → (Text → Option Text) → ℕ → Text → AgentStep
  update : Bool → (Text → Option Text) → Text → Text → Text → AgentStep
  stream : (Text → Option Text) → Bool → Text → AgentStep
  ring : Text → RingEvent → AgentStep
  row_changed : Text → Text → AgentStep

unfoldable pub agent_step : AgentStep → AgentSessionManager → AgentSessionManager
agent_step (me written agent_of now user) m = (handle_agent_me written agent_of now user m).0
agent_step (update written agent_of method user status) m =
    (handle_update_status written agent_of method user status m).0
agent_step (stream agent_of flushes user) m = (handle_agent_sse agent_of flushes user m).0
agent_step (ring id e) m = ring_agent id e m
agent_step (row_changed status id) m = update_status true status id m

unfoldable pub run_agents : List AgentStep → AgentSessionManager → AgentSessionManager
run_agents [] m = m
run_agents (x ∷ xs) m = run_agents xs (agent_step x m)

abbrev StillSound : AgentSessionManager × AgentAnswer → Type 0
StillSound (m, answer) = Sound m

by_option :
    (o : Option Text) (x : AgentSessionManager × AgentAnswer)
    (f : Text → AgentSessionManager × AgentAnswer)
    → StillSound x
    → ((id : Text) → StillSound (f id))
    → StillSound (elim o [ none ↦ x | some id ↦ f id ])
by_option none x f h g = h
by_option (some id) x f h g = g id

agent_step-Sound : (x : AgentStep) (m : AgentSessionManager) → Sound m → Sound (agent_step x m)
unfolding agent_step handle_agent_me handle_update_status handle_agent_sse
agent_step-Sound (me written agent_of now user) m sound =
    if_elim StillSound _ _ (is_empty user) (λ e. sound)
      (λ e.
        by_option (get_agent_by_user_id agent_of m user) (m, unlinked)
          (λ id. (go_online written now user id m, linked id)) sound
          (λ id. go_online-Sound written now user id m sound))
agent_step-Sound (update written agent_of method user status) m sound =
    if_elim StillSound _ _ (not (same method (lit "POST"))) (λ e. sound)
      (λ e.
        by_option (get_agent_by_user_id agent_of m user) (m, failed 404) _ sound
          (λ id.
            if_elim StillSound _ _ (not (is_valid_status status)) (λ e'. sound)
              (λ e'. set_status-Sound written status id m (ground (arith, e')) sound)))
agent_step-Sound (stream agent_of flushes user) m sound =
    by_option (get_agent_by_user_id agent_of m user) (m, failed 404) _ sound
      (λ id. if_elim StillSound _ _ flushes (λ e. subscribe-Sound id m sound) (λ e. sound))
agent_step-Sound (ring id e) m sound = ring_agent-Sound id e m sound
agent_step-Sound (row_changed status id) m sound =
    subst AllSound (sym (update_status-sessions true status id m)) sound

run_agents_keeps :
    (xs : List AgentStep) (m : AgentSessionManager) → Sound m → Sound (run_agents xs m)
unfolding run_agents
run_agents_keeps [] m sound = sound
run_agents_keeps (x ∷ xs) m sound =
    run_agents_keeps xs (agent_step x m) (agent_step-Sound x m sound)

-- From a manager without sessions on, whatever the requests and rings, whichever statements fail and
-- whoever else writes the rows, every session stands under its agent, has one of the five statuses, and
-- has no more than 10 events in any channel.
pub run_agents-Sound :
    (xs : List AgentStep) (has_db : Bool) (rows : Text → Text)
    → Sound (run_agents xs (new_agent_session_manager has_db rows))
unfolding new_agent_session_manager get
run_agents-Sound xs has_db rows =
    run_agents_keeps xs (new_agent_session_manager has_db rows) (λ id s h. cc)
