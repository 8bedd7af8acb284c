-- ===== src/Calls/Control.antt =====
-- The handlers of gateway/callcontrol.go and of gateway/queue.go that move a call: adding it to a queue,
-- picking it, hold, resume and transfer. A request is given decoded and with the method POST; the
-- clock's reading makes the entry's id. Logging, music, the events sent to browsers and the answers of
-- the telephony server are left out; a row of the database is read and written without failure.
pub mod Counts
pub mod Moves
mod Tests
use voiceagent.Base.{
  ℕ, ◌+◌, Bool, true, false, ◌&&◌, ◌||◌, not, List, [], ◌∷◌, ◌++◌, Option, none, some,
  if◌then◌else◌, ltb, Text, lit, same, is_empty, get, put, del, has_prefix, length, drop,
}
use voiceagent.Calls.Queue.{
  QueueEntry, QueueManager, add_caller, remove_caller, remove_caller_by_call_id, take_caller,
  has_call_id,
}
use voiceagent.Calls.Distributor.{Ring, RingingCalls, AgentRow, on_call_start, on_call_end}
use voiceagent.Calls.Announcer.{QueueAnnouncer, start_announcements, stop_announcements}

-- The gateway's parts that a move touches: the browser sessions with their hold flag, the trunk
-- sessions with the caller's number, the rows of the agents, the rings sent and the transfers asked of
-- the telephony server.
pub record Gateway : Type 0 where
  pub queues : QueueManager
  pub webrtc : List (Text × Bool)
  pub siprec : List (Text × Text)
  pub announcer : QueueAnnouncer
  pub ringing : RingingCalls
  pub agents : List (Text × AgentRow)
  pub rings : List Ring
  pub transfers : List (Text × Text)

abbrev pub bridge : Text
bridge = lit "bridge-"

unfoldable pub extract_siprec_call_id : Text → Text
extract_siprec_call_id call_id =
    if ltb (length bridge) (length call_id) && has_prefix call_id bridge
    then drop (length bridge) call_id
    else call_id

unfoldable pub set_hold : Bool → Text → List (Text × Bool) → List (Text × Bool)
set_hold held call sessions = elim (get call sessions) [
  | none ↦ sessions
  | some _ ↦ put call held sessions
]

-- The status code of an answer.
abbrev pub Status : Type 0
Status = ℕ

unfoldable pub handle_call_hold : Text → Gateway → Gateway × Status
unfolding set_hold
handle_call_hold call_id gw =
    if is_empty call_id
    then (gw, 400)
    else (record gw { webrtc = set_hold true call_id gw.webrtc }, 200)

unfoldable pub handle_call_resume : Text → Gateway → Gateway × Status
unfolding set_hold
handle_call_resume call_id gw =
    if is_empty call_id
    then (gw, 400)
    else (record gw { webrtc = set_hold false call_id gw.webrtc }, 200)

-- An UPDATE of a row that is not there changes nothing.
unfoldable pub update_agent :
    Text → (AgentRow → AgentRow) → List (Text × AgentRow) → List (Text × AgentRow)
update_agent id f rows = elim (get id rows) [ none ↦ rows | some row ↦ put id (f row) rows ]

abbrev pub transfer_entry : Text → Text → Text → Text → QueueEntry
transfer_entry entry_id call reason priority = record {
  id = entry_id;
  call_id = call;
  number = lit "Transfer";
  wait_sec = 0;
  reason = reason;
  priority = priority;
  queue_name = [];
  enter_time = 0;
}

-- What both kinds of transfer do first: close the agent's browser session, end the agent's call.
unfoldable pub leave_agent : ℕ → Text → Text → Gateway → Gateway
unfolding update_agent
leave_agent now call_id agent_id gw = record gw {
  webrtc = del call_id gw.webrtc;
  agents =
      if is_empty agent_id then gw.agents else update_agent agent_id (on_call_end now) gw.agents;
}

-- Take the call out of the queues and put it into one of them.
unfoldable pub requeue : ℕ → Text → QueueEntry → QueueManager → QueueManager
requeue now name entry qm = add_caller now name entry (remove_caller_by_call_id entry.call_id qm)

unfoldable pub start_if_known : Text → Text → Gateway → QueueAnnouncer → QueueAnnouncer
start_if_known call name gw qa = elim (get call gw.siprec) [
  | none ↦ qa
  | some _ ↦ start_announcements call name qa
]

unfoldable pub transfer_to_queue : ℕ → Text → Text → Text → Text → Gateway → Gateway
transfer_to_queue now entry_id call_id agent_id name gw =
    let call = extract_siprec_call_id call_id in
    let gw' = leave_agent now call_id agent_id gw in
    record gw' {
      queues =
          requeue now name
            (transfer_entry entry_id call (lit "Transferred from agent") (lit "normal")) gw'.queues;
      announcer = start_if_known call name gw' (stop_announcements call gw'.announcer);
    }

abbrev caller_number : Option Text → Text
caller_number none = lit "Transfer"
caller_number (some n) = if is_empty n then lit "Transfer" else n

unfoldable pub transfer_to_agent : ℕ → Text → Text → Text → Text → Gateway → Gateway
transfer_to_agent now entry_id call_id agent_id target gw =
    let call = extract_siprec_call_id call_id in
    let gw' = leave_agent now call_id agent_id gw in
    record gw' {
      queues =
          requeue now (lit "Transfer")
            (transfer_entry entry_id call (lit "Transfer from agent") (lit "high")) gw'.queues;
      rings =
          gw'.rings
          ++ record {
            agent_id = target;
            call_id = call;
            number = caller_number (get call gw'.siprec);
            queue = lit "Transfer";
            wait_sec = 0;
          }
            ∷ [];
    }

pub record TransferRequest : Type 0 where
  pub call_id : Text
  pub target_type : Text
  pub target_value : Text
  pub target : Text
  pub department : Text
  pub agent_id : Text

-- The newer names of the target, or the older ones.
unfoldable pub target_of : TransferRequest → Text × Text
target_of req =
    if is_empty req.target_type && not (is_empty req.target)
    then (if is_empty req.department
        then (lit "agent", req.target)
        else (lit "queue", req.department))
    else (req.target_type, req.target_value)

unfoldable pub handle_call_transfer : ℕ → Text → TransferRequest → Gateway → Gateway × Status
handle_call_transfer now entry_id req gw =
    let (target_type, target_value) = target_of req in
    if is_empty req.call_id
    then (gw, 400)
    else if same target_type (lit "queue")
    then (transfer_to_queue now entry_id req.call_id req.agent_id target_value gw, 200)
    else if same target_type (lit "agent")
    then (transfer_to_agent now entry_id req.call_id req.agent_id target_value gw, 200)
    else (gw, 400)

pub record PickRequest : Type 0 where
  pub queue_entry_id : Text
  pub call_id : Text
  pub agent_id : Text
  pub webrtc_bridge : Bool

-- The entry that a pick takes, by its own id or by the call's.
unfoldable pub take_for_pick : PickRequest → QueueManager → Option (QueueEntry × QueueManager)
take_for_pick req qm =
    if is_empty req.queue_entry_id
    then take_caller (has_call_id req.call_id) qm
    else remove_caller req.queue_entry_id qm

-- What a pick does with the entry taken.
unfoldable pub picked : PickRequest → QueueEntry → QueueManager → Gateway → Gateway
unfolding update_agent
picked req caller qm gw =
    let agent_ext = if is_empty req.agent_id then lit "1000" else req.agent_id in
    record gw {
      queues = qm;
      transfers =
          if is_empty caller.call_id || req.webrtc_bridge
          then gw.transfers
          else gw.transfers ++ (caller.call_id, agent_ext) ∷ [];
      announcer = stop_announcements caller.call_id gw.announcer;
      agents =
          if is_empty req.agent_id
          then gw.agents
          else update_agent req.agent_id on_call_start gw.agents;
      ringing = if is_empty req.agent_id then gw.ringing else del caller.call_id gw.ringing;
    }

unfoldable pub handle_pick_call : PickRequest → Gateway → Gateway × Status
handle_pick_call req gw =
    if is_empty req.queue_entry_id && is_empty req.call_id
    then (gw, 400)
    else elim (take_for_pick req gw.queues) [
      | none ↦ (gw, 404)
      | some (caller, qm) ↦ (picked req caller qm gw, 200)
    ]

pub record AddQueueRequest : Type 0 where
  pub queue_name : Text
  pub call_id : Text
  pub number : Text
  pub caller_number : Text
  pub reason : Text
  pub priority : Text

unfoldable pub handle_add_to_queue : ℕ → Text → AddQueueRequest → Gateway → Gateway × Status
handle_add_to_queue now entry_id req gw = if is_empty req.queue_name then (gw, 400) else (
  record gw {
    queues =
        add_caller now req.queue_name
          record {
            id = entry_id;
            call_id = req.call_id;
            number = if is_empty req.number then req.caller_number else req.number;
            wait_sec = 0;
            reason = req.reason;
            priority = if is_empty req.priority then lit "normal" else req.priority;
            queue_name = [];
            enter_time = 0;
          }
          gw.queues;
  },
  200,
)
