-- ===== src/Access/Agents.antt =====
-- The sessions of agents in gateway/agent_session.go. The user of a request is the answer of
-- getUserIDFromRequest; what the query of the agents' table finds for a user is an argument.
pub mod Sound
pub mod Ringing
mod Tests
use voiceagent.Base.{
  ℕ, Bool, true, false, ◌&&◌, ◌||◌, not, List, [], ◌∷◌, ◌++◌, Option, none, some, if◌then◌else◌,
  ltb, length, map, Text, lit, same, is_empty, get, put,
}

pub record RingEvent : Type 0 where
  pub call_id : Text
  pub caller : Text
  pub queue : Text
  pub wait_seconds : ℕ

-- A channel of 10 events, the one to be read first at the head.
abbrev pub EventChan : Type 0
EventChan = List RingEvent

pub record AgentOnlineSession : Type 0 where
  pub agent_id : Text
  pub user_id : Text
  pub status : Text
  pub sse_chans : List EventChan
  pub login_time : ℕ

-- The sessions by agent, and the column of the status in the table of agents.
pub record AgentSessionManager : Type 0 where
  pub has_db : Bool
  pub sessions : List (Text × AgentOnlineSession)
  pub status_of : Text → Text

unfoldable pub new_agent_session_manager : Bool → (Text → Text) → AgentSessionManager
new_agent_session_manager has_db rows = record { has_db = has_db; sessions = []; status_of = rows }

-- UPDATE agents SET status = $1 WHERE id = $2, which a manager without a database leaves out. `written`
-- is whether the statement succeeds; its error is ignored.
unfoldable pub update_status : Bool → Text → Text → AgentSessionManager → AgentSessionManager
update_status written status id m =
    if m.has_db && written
    then record m { status_of = λ row. if same row id then status else m.status_of row }
    else m

-- The agent's id. `agent_of` is the id of the row with that user, none when no row has it: then the
-- profile is returned with its fields empty, since the error of that query is overwritten.
unfoldable pub get_agent_by_user_id :
    (Text → Option Text) → AgentSessionManager → Text → Option Text
get_agent_by_user_id agent_of m user =
    if not m.has_db || is_empty user
    then none
    else elim (agent_of user) [ none ↦ some [] | some id ↦ some id ]

-- The answers of the handlers: 200 with the profile's id, with the status, or unlinked, or an error.
pub data AgentAnswer : Type 0 where
  linked : Text → AgentAnswer
  unlinked : AgentAnswer
  status_set : Text → AgentAnswer
  streaming : AgentAnswer
  failed : ℕ → AgentAnswer

unfoldable pub go_online : Bool → ℕ → Text → Text → AgentSessionManager → AgentSessionManager
unfolding update_status
go_online written now user id m = elim (get id m.sessions) [
  | some _ ↦ m
  | none ↦ update_status written (lit "Available") id (record m {
    sessions =
        put id
          (record {
            agent_id = id;
            user_id = user;
            status = lit "Available";
            sse_chans = [];
            login_time = now;
          })
          m.sessions;
  })
]

unfoldable pub handle_agent_me :
    Bool → (Text → Option Text) → ℕ → Text → AgentSessionManager → AgentSessionManager × AgentAnswer
handle_agent_me written agent_of now user m =
    if is_empty user then (m, failed 401) else elim (get_agent_by_user_id agent_of m user) [
      | none ↦ (m, unlinked)
      | some id ↦ (go_online written now user id m, linked id)
    ]

unfoldable pub is_valid_status : Text → Bool
is_valid_status s =
    same s (lit "Available")
    || (same s (lit "Busy")
        || (same s (lit "On Break") || (same s (lit "Wrap-up") || same s (lit "Offline"))))

unfoldable pub set_session_status : Text → Text → AgentSessionManager → AgentSessionManager
set_session_status status id m = elim (get id m.sessions) [
  | none ↦ m
  | some s ↦ record m { sessions = put id (record s { status = status }) m.sessions }
]

unfoldable pub handle_update_status :
    Bool
    → (Text → Option Text)
    → Text
    → Text
    → Text
    → AgentSessionManager
    → AgentSessionManager × AgentAnswer
handle_update_status written agent_of method user status m =
    if not (same method (lit "POST"))
    then (m, failed 405)
    else elim (get_agent_by_user_id agent_of m user) [
      | none ↦ (m, failed 404)
      | some id ↦
          if not (is_valid_status status)
          then (m, failed 400)
          else (set_session_status status id (update_status written status id m), status_set status)
    ]

-- A stream of events opens an empty channel, which only an agent that is online keeps. `flushes` says
-- that the writer is a Flusher.
unfoldable pub subscribe : Text → AgentSessionManager → AgentSessionManager
subscribe id m = elim (get id m.sessions) [
  | none ↦ m
  | some s ↦ record m {
    sessions = put id (record s { sse_chans = s.sse_chans ++ ([] ∷ []) }) m.sessions;
  }
]

unfoldable pub handle_agent_sse :
    (Text → Option Text) → Bool → Text → AgentSessionManager → AgentSessionManager × AgentAnswer
unfolding subscribe
handle_agent_sse agent_of flushes user m = elim (get_agent_by_user_id agent_of m user) [
  | none ↦ (m, failed 404)
  | some id ↦ if flushes then (subscribe id m, streaming) else (m, failed 500)
]

-- A channel that is full drops the event.
unfoldable pub offer_event : RingEvent → EventChan → EventChan
offer_event e ch = if ltb (length ch) 10 then ch ++ (e ∷ []) else ch

unfoldable pub ring_agent : Text → RingEvent → AgentSessionManager → AgentSessionManager
ring_agent id e m = elim (get id m.sessions) [
  | none ↦ m
  | some s ↦ record m {
    sessions = put id (record s { sse_chans = map (offer_event e) s.sse_chans }) m.sessions;
  }
]
