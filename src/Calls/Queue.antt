-- ===== src/Calls/Queue.antt =====
-- The queue manager of gateway/queue.go, and the position that gateway/queue_announcements.go tells a
-- caller. The mutex makes each method one step. The map of queues is an association list: a method
-- that ranges over it meets the queues in the list's order, which stands for any order.
pub mod Taking
pub mod Position
use voiceagent.Base.{
  ℕ, suc, ◌+◌, ◌-◌, ◌*◌, ◌/◌, ◌^◌, Bool, true, false, ◌||◌, not, List, [], ◌∷◌, ◌++◌, map, Option,
  none, some, if◌then◌else◌, ltb, ◌==◌, Text, lit, same, is_empty, get, put,
}

pub record QueueEntry : Type 0 where
  pub id : Text
  pub call_id : Text
  pub number : Text
  pub wait_sec : ℕ
  pub reason : Text
  pub priority : Text
  pub queue_name : Text
  pub enter_time : ℕ  -- in nanoseconds

pub record QueueInfo : Type 0 where
  pub name : Text
  pub avg_handle : Text
  pub sla : ℕ
  pub callers : List QueueEntry

abbrev pub QueueManager : Type 0
QueueManager = List (Text × QueueInfo)

abbrev pub empty_queue : Text → Text → ℕ → QueueInfo
empty_queue name avg_handle sla = record {
  name = name;
  avg_handle = avg_handle;
  sla = sla;
  callers = [];
}

unfoldable pub new_queue_manager : QueueManager
new_queue_manager =
    (lit "Support", empty_queue (lit "Support") (lit "6:30") 85)
    ∷ (lit "Sales", empty_queue (lit "Sales") (lit "8:15") 92)
    ∷ (lit "Billing", empty_queue (lit "Billing") (lit "4:45") 78)
    ∷ (lit "Escalation", empty_queue (lit "Escalation") (lit "12:00") 95)
    ∷ []

-- `int(time.Since(EnterTime).Seconds())`
unfoldable pub tick_entry : ℕ → QueueEntry → QueueEntry
tick_entry now e = record e { wait_sec = (now - e.enter_time) / 10 ^ 9 }

-- One round of tickWaitTimes.
unfoldable pub tick_wait_times : ℕ → QueueManager → QueueManager
tick_wait_times now [] = []
tick_wait_times now ((k, q) ∷ qm) =
    (k, record q { callers = map (tick_entry now) q.callers }) ∷ tick_wait_times now qm

-- `q, ok := qm.queues[queueName]`, or a new queue.
unfoldable pub queue_or_new : Text → QueueManager → QueueInfo
queue_or_new name qm = elim (get name qm) [ none ↦ empty_queue name (lit "5:00") 80 | some q ↦ q ]

unfoldable pub add_caller : ℕ → Text → QueueEntry → QueueManager → QueueManager
add_caller now name entry qm =
    let q = queue_or_new name qm in
    let e = record entry { enter_time = now; queue_name = name } in
    put name (record q { callers = q.callers ++ e ∷ [] }) qm

-- The first entry that passes the test, and the list without it:
-- `append(q.Callers[:i], q.Callers[i+1:]...)`.
unfoldable pub take_entry :
    (QueueEntry → Bool) → List QueueEntry → Option (QueueEntry × List QueueEntry)
take_entry p [] = none
take_entry p (e ∷ es) =
    let rest = take_entry p es in
    if p e then some (e, es) else elim rest [ none ↦ none | some (c, cs) ↦ some (c, e ∷ cs) ]

-- The two loops, over the queues and the callers of each, up to the first hit.
unfoldable pub take_caller : (QueueEntry → Bool) → QueueManager → Option (QueueEntry × QueueManager)
take_caller p [] = none
take_caller p ((k, q) ∷ qm) =
    let rest = take_caller p qm in
    elim (take_entry p q.callers) [
      | some (c, cs) ↦ some (c, (k, record q { callers = cs }) ∷ qm)
      | none ↦ elim rest [ none ↦ none | some (c, qm') ↦ some (c, (k, q) ∷ qm') ]
    ]

abbrev pub has_id : Text → QueueEntry → Bool
has_id entry_id c = same c.id entry_id

abbrev pub has_call_id : Text → QueueEntry → Bool
has_call_id call_id c = same c.call_id call_id

unfoldable pub remove_caller : Text → QueueManager → Option (QueueEntry × QueueManager)
remove_caller entry_id qm = take_caller (has_id entry_id) qm

-- RemoveCallerByCallID: a call that no queue has changes nothing.
unfoldable pub remove_caller_by_call_id : Text → QueueManager → QueueManager
remove_caller_by_call_id call_id qm = elim (take_caller (has_call_id call_id) qm) [
  | none ↦ qm
  | some (c, qm') ↦ qm'
]

-- The place of the first entry with the call's id, counted from `n`.
unfoldable pub place_from : ℕ → Text → List QueueEntry → ℕ
place_from n call_id [] = 0
place_from n call_id (e ∷ es) = if same e.call_id call_id then n else place_from (n + 1) call_id es

-- getQueuePosition: the position from 1, or 0, and the minutes to wait.
unfoldable pub position_of : Text → Option QueueInfo → ℕ × ℕ
position_of call_id none = (0, 0)
position_of call_id (some q) =
    let position = place_from 1 call_id q.callers in
    if position == 0 then (0, 0) else (position, if ltb (position * 3) 1 then 1 else position * 3)

unfoldable pub get_queue_position : Text → Text → QueueManager → ℕ × ℕ
get_queue_position call_id name qm = position_of call_id (get name qm)

-- Everybody who waits, in the order of the iteration.
unfoldable pub all_callers : QueueManager → List QueueEntry
all_callers [] = []
all_callers ((k, q) ∷ qm) = q.callers ++ all_callers qm
