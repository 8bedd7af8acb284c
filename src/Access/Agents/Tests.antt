-- ===== src/Access/Agents/Tests.antt =====
-- One agent who is rung, and two users without an agent.
use voiceagent.Base.{true, false, List, [], ◌∷◌, Option, none, some, if◌then◌else◌, Text, lit, same}
use voiceagent.Access.Agents.{AgentOnlineSession, RingEvent, new_agent_session_manager}
use voiceagent.Access.Agents.Sound.{
  Sound, AgentStep, me, update, stream, ring, row_changed, run_agents, run_agents-Sound,
}

abbrev eve_only : Text → Option Text
eve_only user = if same user (lit "u1") then some (lit "eve") else none

abbrev offline : Text → Text
offline id = lit "Offline"

abbrev call : RingEvent
call = record { call_id = lit "c1"; caller = lit "100"; queue = lit "Sales"; wait_seconds = 4 }

abbrev eve : AgentOnlineSession
eve = record {
  agent_id = lit "eve";
  user_id = lit "u1";
  status = lit "Available";
  sse_chans = [];
  login_time = 3;
}

abbrev day : List AgentStep
day =
    me true eve_only 3 (lit "u1")
    ∷ stream eve_only true (lit "u1")
    ∷ ring (lit "eve") call
    ∷ update false eve_only (lit "POST") (lit "u1") (lit "Busy")
    ∷ row_changed (lit "On Call") (lit "eve")
    ∷ []

run_agents-Sound_example : Sound (run_agents day (new_agent_session_manager true offline))
run_agents-Sound_example = run_agents-Sound day true offline
