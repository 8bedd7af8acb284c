-- ===== src/Sip/Dialling.antt =====
-- Calls that the gateway makes, handleOutboundCall, makeOutboundCall and dialSIPCall of
-- gateway/sip_uac.go. What the network does is an argument, as are the row of the table of trunks that
-- the query finds and the ids made of the clock. The sockets are counted as long as they are open.
pub mod Released
pub mod Silence
mod Tests
use voiceagent.Base.{
  ℕ, suc, ◌+◌, ◌-◌, ℤ, pos, negsuc, ltb_ℤ, Bool, true, false, ◌&&◌, not, List, [], ◌∷◌, ◌++◌,
  Option, none, some, if◌then◌else◌, ◌==◌, Text, lit, is_empty, cut, contains, get, put, del,
}
use voiceagent.Calls.Queue.{QueueEntry, QueueManager, add_caller, remove_caller_by_call_id}
use voiceagent.Access.Agents.{RingEvent, AgentSessionManager, ring_agent}
use voiceagent.Sip.Ports.{PortPool, allocate_rtp_port}
use voiceagent.Sip.Hangup.{session_key, bridge_id}
use voiceagent.Sip.Answers.{
  read, Reply, no_response, timed_out, rejected, not_answered, answered, await_response,
  skip_blanks, scan_int, remote_port, remote_addr, to_tag,
}

pub record Trunk : Type 0 where
  pub name : Text
  pub address : Text
  pub port : ℤ
  pub caller_id : Text

-- The target is where the listener sends to, when it was told.
pub record RtpSession : Type 0 where
  pub to_tag : Text
  pub remote_addr : Text
  pub remote_port : ℤ
  pub local_port : ℕ
  pub target : Option (Text × ℤ)

-- The session of the copilot, which its own context ends.
pub record Copilot : Type 0 where
  pub caller_number : Text
  pub agent_number : Text
  pub cancelled : Bool

pub record Phone : Type 0 where
  pub ports : PortPool
  pub registrations : List (Text × Text)
  pub sessions : List (Text × RtpSession)
  pub copilots : List (Text × Copilot)
  pub bridges : List (Text × Text)
  pub queues : QueueManager
  pub agents : AgentSessionManager
  pub listeners : List ℕ
  pub connections : ℕ

-- Whether the port opens, the trunk's address resolves and is dialled, and the datagrams that come back.
pub record Network : Type 0 where
  pub opens : Bool
  pub resolves : Bool
  pub dials : Bool
  pub datagrams : List Text

pub data Dialled : Type 0 where
  no_listener : Dialled
  unresolved : Dialled
  undialled : Dialled
  ended : Reply → Dialled

-- The session that is there, or a new one.
unfoldable pub get_or_create : Text → List (Text × Copilot) → Copilot
get_or_create call_id copilots = elim (get call_id copilots) [
  | none ↦ record { caller_number = []; agent_number = []; cancelled = false }
  | some c ↦ c
]

unfoldable pub close_listener : ℕ → List ℕ → List ℕ
close_listener port [] = []
close_listener port (p ∷ ps) =
    let rest = close_listener port ps in if p == port then ps else p ∷ rest

-- The line of a call closed: its listener and its connection.
unfoldable pub hang_up_line : ℕ → Phone → Phone
unfolding close_listener
hang_up_line port s = record s {
  listeners = close_listener port s.listeners;
  connections = s.connections - 1;
}

unfoldable pub settle : ℕ → Phone → Reply → Phone × (ℕ × Dialled)
unfolding hang_up_line
settle port joined (answered r) = (joined, (port, ended (answered r)))
settle port joined no_response = (hang_up_line port joined, (port, ended no_response))
settle port joined timed_out = (hang_up_line port joined, (port, ended timed_out))
settle port joined (rejected line) = (hang_up_line port joined, (port, ended (rejected line)))
settle port joined (not_answered line) =
    (hang_up_line port joined, (port, ended (not_answered line)))

-- From the port to the answer, which both ways to dial have; the reply, and the local port.
unfoldable pub place_call : Network → Phone → Phone × (ℕ × Dialled)
unfolding close_listener settle
place_call net s =
    let (pool, port) = allocate_rtp_port s.ports in
    let s' = record s { ports = pool } in
    if not net.opens
    then (s', (port, no_listener))
    else let opened = record s' { listeners = port ∷ s'.listeners } in
      let hung_up = record opened { listeners = close_listener port opened.listeners } in
      if not net.resolves
      then (hung_up, (port, unresolved))
      else if not net.dials
      then (hung_up, (port, undialled))
      else let joined = record opened { connections = opened.connections + 1 } in
        settle port joined (await_response net.datagrams)

unfoldable pub session_for : ℕ → Text → RtpSession
session_for port response =
    let addr = remote_addr response in
    let remote = remote_port response in
    record {
      to_tag = to_tag response;
      remote_addr = addr;
      remote_port = remote;
      local_port = port;
      target = if not (is_empty addr) && ltb_ℤ (pos 0) remote then some (addr, remote) else none;
    }

unfoldable pub ring : Text → Text → Text → Text → AgentSessionManager → AgentSessionManager
ring agent call_id number queue m =
    if is_empty agent
    then m
    else ring_agent agent
        (record { call_id = call_id; caller = number; queue = queue; wait_seconds = 0 }) m

abbrev pub outbound_entry : Text → Text → Text → QueueEntry
outbound_entry entry_id call_id number = record {
  id = entry_id;
  call_id = call_id;
  number = number;
  wait_sec = 0;
  reason = lit "Outbound call";
  priority = lit "high";
  queue_name = [];
  enter_time = 0;
}

-- What follows an answer: the session, the queue, and the agent, who is rung twice.
unfoldable pub establish : ℕ → Text → Text → Text → Text → ℕ → Text → Phone → Phone
unfolding session_for ring
establish now entry_id call_id number agent port response s = record s {
  sessions = put (session_key call_id (lit "caller")) (session_for port response) s.sessions;
  queues = add_caller now (lit "Outbound") (outbound_entry entry_id call_id number) s.queues;
  agents =
      ring agent call_id number (lit "Outbound-Answered")
        (ring agent call_id number (lit "Outbound") s.agents);
}

-- An answered call is established, and what came of any other is passed on.
unfoldable pub conclude : ℕ → Text → Text → Text → Text → Phone × (ℕ × Dialled) → Phone × Dialled
unfolding establish
conclude now entry_id call_id number agent (t, (port, ended (answered r))) =
    (establish now entry_id call_id number agent port r t, ended (answered r))
conclude now entry_id call_id number agent (t, (port, other)) = (t, other)

unfoldable pub make_outbound_call :
    ℕ → Text → Text → Text → Text → Text → Network → Phone → Phone × Dialled
unfolding place_call conclude get_or_create
make_outbound_call now entry_id call_id number caller_id agent net s =
    let c = get_or_create call_id s.copilots in
    let begun = record s {
      copilots =
          put call_id (record c { caller_number = number; agent_number = caller_id }) s.copilots;
    } in
    conclude now entry_id call_id number agent (place_call net begun)

unfoldable pub conference_leg : Text → Phone × (ℕ × Dialled) → Phone × Option RtpSession
unfolding session_for
conference_leg call_id (t, (port, ended (answered r))) =
    let sess = session_for port r in
    (record t { sessions = put (session_key call_id (lit "conf")) sess t.sessions }, some sess)
conference_leg call_id (t, (port, other)) = (t, none)

-- The leg of a conference; none when it is not answered.
unfoldable pub dial_sip_call : Text → Network → Phone → Phone × Option RtpSession
unfolding place_call conference_leg
dial_sip_call call_id net s = conference_leg call_id (place_call net s)

unfoldable pub cancel_copilot : Text → List (Text × Copilot) → List (Text × Copilot)
cancel_copilot call_id copilots = elim (get call_id copilots) [
  | none ↦ copilots
  | some c ↦ put call_id (record c { cancelled = true }) copilots
]

unfoldable pub remote_bye : Text → Phone → Phone
unfolding cancel_copilot
remote_bye call_id s = record s {
  bridges = del (bridge_id call_id) s.bridges;
  queues = remove_caller_by_call_id call_id s.queues;
  copilots = cancel_copilot call_id s.copilots;
}

-- The loop of an answered call over its reads: none for one that fails, as it does after 120 seconds
-- without a datagram.
unfoldable pub keep_alive : ℕ → Text → List (Option Text) → Phone → Phone
unfolding hang_up_line
keep_alive port call_id [] s = s
keep_alive port call_id (none ∷ reads) s = hang_up_line port s
keep_alive port call_id (some m ∷ reads) s =
    let later = keep_alive port call_id reads s in
    if contains (read m) (lit "BYE") then hang_up_line port (remote_bye call_id s) else later

pub record OutboundRequest : Type 0 where
  pub number : Text
  pub trunk_id : Text
  pub caller_id : Text
  pub agent_id : Text

-- The trunk of the row that the query finds.
unfoldable pub find_outbound_trunk : (Text → Option Trunk) → Text → Option Trunk
find_outbound_trunk row_of trunk_id = elim (row_of trunk_id) [
  | none ↦ none
  | some t ↦
      some
        (elim t.port [ pos n ↦ if n == 0 then record t { port = pos 5060 } else t | negsuc n ↦ t ])
]

abbrev pub direct_trunk : Trunk
direct_trunk = record { name = lit "direct"; address = []; port = pos 5060; caller_id = [] }

-- The trunk with the address of a registered contact.
unfoldable pub at_contact : Text → Trunk → Trunk
at_contact contact t = elim (cut 58 contact) [
  | none ↦ record t { address = contact }
  | some (host, port) ↦ elim (skip_blanks port) [
    | none ↦ record t { address = host }
    | some digits ↦ elim (scan_int digits) [
      | none ↦ record t { address = host }
      | some n ↦ record t { address = host; port = n }
    ]
  ]
]

unfoldable pub caller_of : OutboundRequest → Option Trunk → Text
caller_of req trunk =
    let own =
      if is_empty req.caller_id
      then elim trunk [ none ↦ [] | some t ↦ t.caller_id ]
      else req.caller_id in
    if is_empty own then lit "voiceagent" else own

-- The answer, and the caller's id and the trunk of the call that is begun. The request is none for a
-- body that is not JSON.
unfoldable pub handle_outbound_call :
    (Text → Option Trunk) → Bool → Option OutboundRequest → Phone → ℕ × Option (Text × Trunk)
unfolding find_outbound_trunk at_contact caller_of
handle_outbound_call row_of is_post none s = (if is_post then 400 else 405, none)
handle_outbound_call row_of is_post (some req) s =
    let trunk = find_outbound_trunk row_of req.trunk_id in
    let caller = caller_of req trunk in
    if not is_post
    then (405, none)
    else if is_empty req.number
    then (400, none)
    else elim (get req.number s.registrations) [
      | none ↦ elim trunk [ none ↦ (400, none) | some t ↦ (200, some (caller, t)) ]
      | some contact ↦
          (200, some (caller, at_contact contact (elim trunk [ none ↦ direct_trunk | some t ↦ t ])))
    ]
