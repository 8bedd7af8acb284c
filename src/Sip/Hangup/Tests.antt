-- ===== src/Sip/Hangup/Tests.antt =====
-- Two calls of which one has an id that begins like the other's.
use voiceagent.Base.{◌-◌, ◌≡◌, [], ◌∷◌, none, if◌then◌else◌, lit, has_prefix, get}
use voiceagent.Calls.Queue.{QueueEntry, new_queue_manager, all_callers, has_call_id, add_caller}
use voiceagent.Calls.Queue.Taking.{count_if}
use voiceagent.Calls.Announcer.{new_queue_announcer}
use voiceagent.Sip.Hangup.{LiveCalls, bridge_id, handle_bye}
use voiceagent.Sip.Hangup.Cleared.{handle_bye_clears}

abbrev caller : QueueEntry
caller = record {
  id = lit "q-1";
  call_id = lit "c1";
  number = lit "100";
  wait_sec = 0;
  reason = [];
  priority = lit "normal";
  queue_name = [];
  enter_time = 0;
}

abbrev busy : LiveCalls
busy = record {
  sessions = (lit "c1_caller", 30000) ∷ (lit "c12_caller", 30002) ∷ [];
  closed = [];
  bridges = (lit "bridge-c1", lit "eve") ∷ [];
  agents = [];
  announcer = new_queue_announcer;
  queues = add_caller 5 (lit "Sales") caller new_queue_manager;
  ringing = (lit "c1", 5) ∷ [];
}

handle_bye_clears_example :
    let after : LiveCalls = handle_bye 9 (lit "c1") busy in
    (get (lit "c12_caller") after.sessions ≡ (
      if has_prefix (lit "c12_caller") (lit "c1")
      then none
      else get (lit "c12_caller") busy.sessions))
    × ((get (bridge_id (lit "c1")) after.bridges ≡ none)
        × ((get (lit "c1") after.ringing ≡ none)
            × ((get (lit "c1") after.announcer.active ≡ none)
                × (count_if (has_call_id (lit "c1")) (all_callers after.queues)
                    ≡ count_if (has_call_id (lit "c1")) (all_callers busy.queues) - 1))))
handle_bye_clears_example = handle_bye_clears 9 (lit "c1") (lit "c12_caller") busy
