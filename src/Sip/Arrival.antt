-- ===== src/Sip/Arrival.antt =====
-- A call that was admitted, the rest of handleInvite in gateway/sipserver.go: its body, its session, the
-- number that it dialled, its menu and its queue.
pub mod Placed
pub mod Again
mod Tests
use voiceagent.Base.{
  ℕ, suc, ◌+◌, ℤ, Bool, true, false, ◌&&◌, ◌||◌, not, List, [], ◌∷◌, ◌++◌, Option, none, some,
  if◌then◌else◌, ltb, length, take, Text, lit, same, is_empty, contains, get, put,
}
use voiceagent.Calls.Queue.{QueueEntry, add_caller}
use voiceagent.Calls.Announcer.{start_announcements}
use voiceagent.Inbound.Did.{DidRoute, TimeCondition, match_did}
use voiceagent.Inbound.Ivr.{IvrFlow, run_ivr}
use voiceagent.Inbound.SipAuth.{SipTrunkEntry}
use voiceagent.Sip.Ports.{PortPool, allocate_rtp_port}
use voiceagent.Sip.Hangup.{LiveCalls, session_key}
use voiceagent.Sip.Bodies.{
  SdpOffer, Participant, SiprecStream, RecordingSession, parse_sdp_offer, parse_multipart_body,
}

pub record Invite : Type 0 where
  pub call_id : Text
  pub from_user : Text
  pub to_user : Text
  pub content_type : Option Text
  pub body : Text
  pub source_host : Option Text

-- The libraries, the tables and the network at the time of a call.
pub record Surroundings : Type 0 where
  pub sdp_of : Text → Option SdpOffer
  pub xml_of : Text → Option RecordingSession
  pub type_of : SipTrunkEntry → Text
  pub opens : Bool
  pub regex : Text → Text → Option Bool
  pub parse_condition : Text → Option TimeCondition
  pub today : Text
  pub clock : Text
  pub routes : List DidRoute
  pub flow_of : Text → Option IvrFlow
  pub heard : ℕ → ℕ → Text
  pub cancelled : ℕ → Bool
  pub now : ℕ
  pub entry_id : Text

-- The copilot of a call: who calls whom, and whether the agent's audio goes back to the caller.
pub record Copilot : Type 0 where
  pub caller_number : Text
  pub agent_number : Text
  pub talks_back : Bool

pub record Server : Type 0 where
  pub pool : PortPool
  pub live : LiveCalls
  pub listeners : List ℕ
  pub copilots : List (Text × Copilot)

-- How the handler ends: with a response to the call, without one after the menu hung up, or by a panic.
pub data Arrived : Type 0 where
  responded : ℕ → Arrived
  unanswered : Arrived
  crashed : Arrived

abbrev pub is_multipart : Invite → Bool
is_multipart req = elim req.content_type [ none ↦ false | some t ↦ contains t (lit "multipart") ]

unfoldable pub call_type : Surroundings → Option SipTrunkEntry → Invite → Text
call_type env trunk req =
    let own : Text = elim trunk [
      | none ↦ lit "direct"
      | some t ↦ if is_empty (env.type_of t) then lit "direct" else env.type_of t
    ] in
    if is_multipart req && contains req.body (lit "recording") then lit "siprec" else own

-- The SDP and the XML of the body.
unfoldable pub bodies : Invite → Text × Text
bodies req = elim req.content_type [
  | none ↦ (req.body, [])
  | some t ↦
      if contains t (lit "multipart") then parse_multipart_body req.body t else (req.body, [])
]

unfoldable pub metadata : Surroundings → Text → Option RecordingSession
metadata env xml = if is_empty xml then none else env.xml_of xml

-- The label of the first stream.
unfoldable pub role_of : Option RecordingSession → Text
role_of none = lit "caller"
role_of (some meta) = elim meta.streams [
  | [] ↦ lit "caller"
  | st ∷ sts ↦ if is_empty st.label then lit "caller" else st.label
]

unfoldable pub name_by_streams : Participant → List SiprecStream → Copilot → Copilot
name_by_streams p [] c = c
name_by_streams p (st ∷ sts) c =
    let named =
      if same st.participant_id p.id
      then if same st.label (lit "caller") || is_empty st.label
        then record c { caller_number = p.aor }
        else record c { agent_number = p.aor }
      else c in
    name_by_streams p sts named

unfoldable pub name_by_participants : List SiprecStream → List Participant → Copilot → Copilot
unfolding name_by_streams
name_by_participants sts [] c = c
name_by_participants sts (p ∷ ps) c =
    name_by_participants sts ps (if is_empty p.aor then c else name_by_streams p sts c)

-- The copilot of the call, there or new, with the names of the headers and the metadata.
unfoldable pub identified : Invite → Option RecordingSession → Option Copilot → Copilot
unfolding name_by_participants
identified req meta old =
    let c : Copilot = elim old [
      | none ↦ record { caller_number = []; agent_number = []; talks_back = false }
      | some c ↦ c
    ] in
    let called = record c {
      caller_number = if is_empty req.from_user then c.caller_number else req.from_user;
      agent_number = if is_empty req.to_user then c.agent_number else req.to_user;
    } in
    elim meta [ none ↦ called | some m ↦ name_by_participants m.streams m.participants called ]

-- The destination of a number: none when its menu hung up, else its type and value.
unfoldable pub destination : Surroundings → Option SipTrunkEntry → Invite → Option (Text × Text)
destination env trunk req =
    let dest =
      match_did env.regex env.parse_condition env.today env.clock req.to_user
        (elim trunk [ none ↦ [] | some t ↦ t.id ]) env.routes in
    let plain : Text × Text = (dest.dest_type, dest.dest_value) in
    if is_empty dest.ivr_id then some plain else elim (env.flow_of dest.ivr_id) [
      | none ↦ some plain
      | some flow ↦
          let (kind, value) = run_ivr (some flow) env.heard env.cancelled in
          if same kind (lit "queue") && not (is_empty value)
          then some (lit "queue", value)
          else if same kind (lit "agent") && not (is_empty value)
          then some (lit "agent", value)
          else if same kind (lit "hangup")
          then none
          else some plain
    ]

unfoldable pub queue_for : Text × Text → Text
queue_for (kind, value) =
    if same kind (lit "queue") && not (is_empty value)
    then value
    else if same kind (lit "agent") && not (is_empty value)
    then lit "Direct"
    else lit "Support"

abbrev pub caller_entry : Text → Text → Text → Text → QueueEntry
caller_entry entry_id call_id number reason = record {
  id = entry_id;
  call_id = call_id;
  number = number;
  wait_sec = 0;
  reason = reason;
  priority = lit "normal";
  queue_name = [];
  enter_time = 0;
}

-- A caller in a queue, and its announcements on a direct trunk.
unfoldable pub wait_in : Surroundings → Text → Text → Text → Text → LiveCalls → LiveCalls
wait_in env kind queue call_id number l = record l {
  queues =
      add_caller env.now queue
        (caller_entry env.entry_id call_id number
          (if same kind (lit "siprec") then lit "SIPREC observation" else lit "Incoming call"))
        l.queues;
  announcer =
      if same kind (lit "direct")
      then start_announcements call_id queue l.announcer
      else l.announcer;
}

-- callerNum, with the slice of the call's id that panics when it is short.
unfoldable pub caller_number_of : Text → Text → Option Text
caller_number_of call_id number =
    if is_empty number
    then if ltb (length call_id) 12 then none else some (take 12 call_id)
    else some number

unfoldable pub enqueue :
    Surroundings → Option SipTrunkEntry → Text → Invite → Copilot → Server → Server × Arrived
enqueue env trunk kind req c s = elim (destination env trunk req) [
  | none ↦ (s, unanswered)
  | some dest ↦ elim (caller_number_of req.call_id c.caller_number) [
    | none ↦ (s, crashed)
    | some number ↦ (
      record s { live = wait_in env kind (queue_for dest) req.call_id number s.live },
      responded 200,
    )
  ]
]

-- The session and the copilot of a call whose listener is open.
unfoldable pub register_call : Text → Text → Invite → Copilot → ℕ → Server → Server
register_call kind role req c port s = record s {
  listeners = port ∷ s.listeners;
  copilots =
      put req.call_id
        (record c { talks_back = if same kind (lit "direct") then true else c.talks_back })
        s.copilots;
  live = record s.live { sessions = put (session_key req.call_id role) port s.live.sessions };
}

-- What follows the reading of the SDP, none when it failed.
unfoldable pub with_offer :
    Surroundings
    → Option SipTrunkEntry
    → Text
    → Option RecordingSession
    → Invite
    → Server
    → Option (Text × (ℤ × Text))
    → Server × Arrived
with_offer env trunk kind meta req s none = (s, responded 488)
with_offer env trunk kind meta req s (some offer) =
    let (pool, port) = allocate_rtp_port s.pool in
    let s' = record s { pool = pool } in
    let c = identified req meta (get req.call_id s.copilots) in
    let t = register_call kind (role_of meta) req c port s' in
    if not env.opens
    then (s', responded 500)
    else if same (role_of meta) (lit "caller")
    then enqueue env trunk kind req c t
    else (t, responded 200)

-- The trunks are those that the call's type is taken from and that its number is routed for.
unfoldable pub accept_call :
    Surroundings → Option SipTrunkEntry → Option SipTrunkEntry → Invite → Server → Server × Arrived
accept_call env type_trunk route_trunk req s =
    let (sdp, xml) = bodies req in
    with_offer env route_trunk (call_type env type_trunk req) (metadata env xml) req s
      (parse_sdp_offer env.sdp_of sdp)
