-- ===== src/Calls/Distributor.antt =====
-- The automatic call distributor of gateway/acd.go. What the database answers, agents of a queue and
-- skills, is an argument; the counts that it stores are natural numbers.
pub mod Ringing
pub mod Best
mod Tests
use voiceagent.Base.{
  ℕ, ◌+◌, ◌-◌, ◌*◌, ◌/◌, ◌^◌, Bool, true, false, ◌&&◌, not, List, [], ◌∷◌, Option, none, some,
  if◌then◌else◌, ltb, leb, ℤ, pos, ◌-ℤ◌, ltb_ℤ, Text, same, trim_space, get, put, del,
}
use voiceagent.Calls.Queue.{QueueEntry, QueueInfo, QueueManager}

pub record AcdAgent : Type 0 where
  pub id : Text
  pub name : Text
  pub expertise : List Text
  pub active_calls : ℕ
  pub max_calls : ℕ
  pub priority : ℕ
  pub last_call_end : Option ℕ  -- in nanoseconds

pub record AcdScore : Type 0 where
  pub agent : AcdAgent
  pub score : ℤ

abbrev pub second : ℕ
second = 10 ^ 9

-- The two loops over the skills: a hit for each pair that agrees.
unfoldable pub hits_of : Text → List Text → ℕ
hits_of skill [] = 0
hits_of skill (x ∷ xs) =
    let rest = hits_of skill xs in if same (trim_space x) (trim_space skill) then rest + 1 else rest

unfoldable pub hits : List Text → List Text → ℕ
hits [] expertise = 0
hits (s ∷ ss) expertise = hits_of s expertise + hits ss expertise

-- One point for each ten seconds of rest, thirty for an agent who never had a call.
unfoldable pub idle_bonus : ℕ → Option ℕ → ℕ
idle_bonus now none = 30
idle_bonus now (some ended) = (now - ended) / second / 10

unfoldable pub score_agent : ℕ → List Text → AcdAgent → ℤ
score_agent now skills a =
    pos (10 * hits skills a.expertise + 5 * a.priority + idle_bonus now a.last_call_end)
    -ℤ pos (10 * a.active_calls)

-- The wrap-up time of 15 seconds after the last call.
unfoldable pub is_wrapping_up : ℕ → Option ℕ → Bool
is_wrapping_up now none = false
is_wrapping_up now (some ended) = ltb (now - ended) (15 * second)

unfoldable pub is_eligible : ℕ → AcdAgent → Bool
is_eligible now a = not (leb a.max_calls a.active_calls) && not (is_wrapping_up now a.last_call_end)

-- The loop over the rows of the query.
unfoldable pub candidates : ℕ → List Text → List AcdAgent → List AcdScore
candidates now skills [] = []
candidates now skills (a ∷ rows) =
    let rest = candidates now skills rows in
    if is_eligible now a
    then record { agent = a; score = score_agent now skills a } ∷ rest
    else rest

abbrev pub first_agent : List AcdScore → Option AcdAgent
first_agent [] = none
first_agent (x ∷ xs) = some x.agent

-- The comparison that findBestAgent sorts by.
unfoldable pub by_score : AcdScore → AcdScore → Bool
by_score x y = ltb_ℤ y.score x.score

-- `sort_slice` is sort.Slice.
unfoldable pub find_best_agent :
    ((AcdScore → AcdScore → Bool) → List AcdScore → List AcdScore)
    → ℕ
    → List Text
    → List AcdAgent
    → Option AcdAgent
find_best_agent sort_slice now skills rows =
    first_agent (sort_slice by_score (candidates now skills rows))

-- RingAgent: agent, call, caller's number, queue, and the seconds waited.
pub record Ring : Type 0 where
  pub agent_id : Text
  pub call_id : Text
  pub number : Text
  pub queue : Text
  pub wait_sec : ℕ

-- The calls that ring, with the time that each began to.
abbrev pub RingingCalls : Type 0
RingingCalls = List (Text × ℕ)

-- `best name` is findBestAgent's answer for the queue `name`.
unfoldable pub assign :
    (Text → Option AcdAgent) → ℕ → Text → QueueEntry → RingingCalls → RingingCalls × List Ring
assign best now name caller ringing = elim (best name) [
  | none ↦ (ringing, [])
  | some agent ↦ (
    put caller.call_id now ringing,
    record {
      agent_id = agent.id;
      call_id = caller.call_id;
      number = caller.number;
      queue = name;
      wait_sec = caller.wait_sec;
    }
        ∷ [],
  )
]

-- The first caller of a queue, unless the call has been ringing for less than 30 seconds.
unfoldable pub serve :
    (Text → Option AcdAgent)
    → ℕ
    → Text
    → QueueEntry
    → Option ℕ
    → RingingCalls
    → RingingCalls × List Ring
unfolding assign
serve best now name caller none ringing = assign best now name caller ringing
serve best now name caller (some since) ringing =
    if ltb (now - since) (30 * second)
    then (ringing, [])
    else assign best now name caller (del caller.call_id ringing)

unfoldable pub process_queue :
    (Text → Option AcdAgent) → ℕ → Text → List QueueEntry → RingingCalls → RingingCalls × List Ring
process_queue best now name [] ringing = (ringing, [])
process_queue best now name (caller ∷ others) ringing =
    serve best now name caller (get caller.call_id ringing) ringing

-- One pass of processQueues; the rings in the order of the queues.
unfoldable pub process_queues :
    (Text → Option AcdAgent) → ℕ → QueueManager → RingingCalls → RingingCalls × List (List Ring)
process_queues best now [] ringing = (ringing, [])
process_queues best now ((name, q) ∷ qm) ringing =
    let (ringing', rung) = process_queue best now name q.callers ringing in
    let (last, more) = process_queues best now qm ringing' in (last, rung ∷ more)

-- What the updates of OnCallStart and OnCallEnd make of an agent's row: its count and its status.
pub data AgentStatus : Type 0 where
  available on_call other : AgentStatus

pub record AgentRow : Type 0 where
  pub active_calls : ℕ
  pub status : AgentStatus
  pub last_call_end : Option ℕ

unfoldable pub on_call_start : AgentRow → AgentRow
on_call_start a = record a { active_calls = a.active_calls + 1; status = on_call }

abbrev is_on_call : AgentStatus → Bool
is_on_call on_call = true
is_on_call available = false
is_on_call other = false

-- `GREATEST(active_calls-1, 0)`, then the second update.
unfoldable pub on_call_end : ℕ → AgentRow → AgentRow
on_call_end now a =
    let left = a.active_calls - 1 in
    record {
      active_calls = left;
      status = if leb left 0 && is_on_call a.status then available else a.status;
      last_call_end = some now;
    }
