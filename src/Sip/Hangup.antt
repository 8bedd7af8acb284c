-- ===== src/Sip/Hangup.antt =====
-- The end of a call by a BYE, handleBye of gateway/sipserver.go, over the queues, the announcements, the
-- agents and the browser's calls. A session is known by its key and holds a port of the server.
pub mod Cleared
mod Tests
use voiceagent.Base.{
  ℕ, Bool, true, false, List, [], ◌∷◌, ◌++◌, Option, none, some, if◌then◌else◌, Text, lit, is_empty,
  has_prefix, get, put, del,
}
use voiceagent.Calls.Queue.{QueueManager, remove_caller_by_call_id}
use voiceagent.Calls.Distributor.{RingingCalls, AgentRow, on_call_end}
use voiceagent.Calls.Announcer.{QueueAnnouncer, stop_announcements}

-- The sessions with their ports, the ports whose listeners were closed, and the browser's calls with
-- their agents.
pub record LiveCalls : Type 0 where
  pub sessions : List (Text × ℕ)
  pub closed : List ℕ
  pub bridges : List (Text × Text)
  pub agents : List (Text × AgentRow)
  pub announcer : QueueAnnouncer
  pub queues : QueueManager
  pub ringing : RingingCalls

abbrev pub session_key : Text → Text → Text
session_key call_id role = call_id ++ 95 ∷ role

unfoldable pub add_session : Text → Text → ℕ → LiveCalls → LiveCalls
add_session call_id role port s = record s {
  sessions = put (session_key call_id role) port s.sessions;
}

-- The loop over the sessions whose key begins with the call's id: what is left, and the ports.
unfoldable pub end_sessions : Text → List (Text × ℕ) → List (Text × ℕ) × List ℕ
end_sessions call_id [] = ([], [])
end_sessions call_id ((k, port) ∷ m) =
    let (rest, ports) = end_sessions call_id m in
    if has_prefix k call_id then (rest, port ∷ ports) else ((k, port) ∷ rest, ports)

unfoldable pub free_agent : ℕ → Text → List (Text × AgentRow) → List (Text × AgentRow)
free_agent now agent rows =
    if is_empty agent
    then rows
    else elim (get agent rows) [ none ↦ rows | some row ↦ put agent (on_call_end now row) rows ]

abbrev pub bridge_id : Text → Text
bridge_id call_id = lit "bridge-" ++ call_id

unfoldable pub close_bridge : ℕ → Text → LiveCalls → LiveCalls
unfolding free_agent
close_bridge now call_id s = elim (get (bridge_id call_id) s.bridges) [
  | none ↦ s
  | some agent ↦ record s {
    bridges = del (bridge_id call_id) s.bridges;
    agents = free_agent now agent s.agents;
  }
]

unfoldable pub handle_bye : ℕ → Text → LiveCalls → LiveCalls
unfolding close_bridge
handle_bye now call_id s =
    let (left, ports) = end_sessions call_id s.sessions in
    let t = close_bridge now call_id (record s { sessions = left; closed = s.closed ++ ports }) in
    record t {
      announcer = stop_announcements call_id t.announcer;
      queues = remove_caller_by_call_id call_id t.queues;
      ringing = del call_id t.ringing;
    }
