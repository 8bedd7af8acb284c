-- ===== src/Browser/Leaving.antt =====
-- The end of a call by its agent, handleHangup of gateway/webrtc.go and SendBYE of gateway/sipserver.go,
-- over the same queues, agents and sessions as a BYE of the caller.
pub mod Steps
pub mod Kept
mod Tests
use voiceagent.Base.{
  ℕ, Bool, true, false, not, List, [], ◌∷◌, ◌++◌, Option, none, some, if◌then◌else◌, Text, lit,
  same, is_empty, has_prefix, trim_prefix, get, put, del,
}
use voiceagent.Calls.Queue.{remove_caller_by_call_id}
use voiceagent.Sip.Hangup.{LiveCalls, free_agent}

-- The copilot of a call: its context, the port of its RTP session, and whether that was ended.
pub record Copilot : Type 0 where
  pub cancelled : Bool
  pub rtp_port : Option ℕ
  pub rtp_cancelled : Bool

-- The calls, the copilots by call, the states that were broadcast, and the sessions whose peers were
-- sent a BYE.
pub record Desk : Type 0 where
  pub live : LiveCalls
  pub copilots : List (Text × Copilot)
  pub states : List (Text × Text)
  pub byes : List Text

-- The first session of the call, in the order of the map's iteration.
unfoldable pub first_session : Text → List (Text × ℕ) → Option Text
first_session call_id [] = none
first_session call_id ((k, port) ∷ m) =
    let rest = first_session call_id m in if has_prefix k call_id then some k else rest

-- A BYE goes to where the session's call came from, if that is known.
unfoldable pub send_bye : (Text → Text) → Text → Desk → Desk
unfolding first_session
send_bye source_of call_id d = elim (first_session call_id d.live.sessions) [
  | none ↦ d
  | some k ↦ if is_empty (source_of k) then d else record d { byes = d.byes ++ (k ∷ []) }
]

unfoldable pub cancel_all : Copilot → Copilot
cancel_all c = record c {
  cancelled = true;
  rtp_cancelled = elim c.rtp_port [ none ↦ c.rtp_cancelled | some port ↦ true ];
}

abbrev pub rtp_ports : Copilot → List ℕ
rtp_ports c = elim c.rtp_port [ none ↦ [] | some port ↦ port ∷ [] ]

unfoldable pub end_copilot : Text → Desk → Desk
unfolding cancel_all
end_copilot call_id d = elim (get call_id d.copilots) [
  | none ↦ d
  | some c ↦ record d {
    copilots = put call_id (cancel_all c) d.copilots;
    live = record d.live { closed = d.live.closed ++ rtp_ports c };
  }
]

unfoldable pub leave_bridge : ℕ → Text → LiveCalls → LiveCalls
unfolding free_agent
leave_bridge now id s = elim (get id s.bridges) [
  | none ↦ s
  | some agent ↦ record s { bridges = del id s.bridges; agents = free_agent now agent s.agents }
]

unfoldable pub leave_queue : Text → Desk → Desk
leave_queue call_id d = record d {
  live = record d.live { queues = remove_caller_by_call_id call_id d.live.queues };
}

-- What a hangup of a bridge ends behind it.
unfoldable pub end_bridged : (Text → Text) → Text → Desk → Desk
unfolding send_bye end_copilot leave_queue
end_bridged source_of call_id d =
    let told = record d { states = d.states ++ ((call_id, lit "ended") ∷ []) } in
    leave_queue call_id (end_copilot call_id (send_bye source_of call_id told))

unfoldable pub handle_hangup : ℕ → (Text → Text) → Text → Desk → Desk
unfolding leave_bridge end_bridged
handle_hangup now source_of id d =
    let left = record d { live = leave_bridge now id d.live } in
    let call_id = trim_prefix id (lit "bridge-") in
    if same call_id id then left else end_bridged source_of call_id left
