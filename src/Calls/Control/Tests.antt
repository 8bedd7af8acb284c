-- ===== src/Calls/Control/Tests.antt =====
-- A gateway with two callers, of gateway/callcontrol.go and gateway/queue.go.
use voiceagent.Base.{◌≡◌, refl, true, false, [], ◌∷◌, lit, same, get, put}
use voiceagent.Calls.Queue.{QueueEntry}
use voiceagent.Calls.Announcer.{new_queue_announcer}
use voiceagent.Calls.Control.{
  Gateway, TransferRequest, PickRequest, handle_pick_call, handle_call_hold, handle_call_resume,
  set_hold,
}
use voiceagent.Calls.Control.Moves.{handle_pick_call-Picked, Picked}

abbrev waiting : QueueEntry
waiting = record {
  id = lit "q-1";
  call_id = lit "anna";
  number = lit "100";
  wait_sec = 0;
  reason = [];
  priority = lit "normal";
  queue_name = lit "Sales";
  enter_time = 0;
}

abbrev office : Gateway
office = record {
  queues =
      (
        lit "Sales",
        record { name = lit "Sales"; avg_handle = lit "8:15"; sla = 92; callers = waiting ∷ [] },
      )
      ∷ [];
  webrtc = (lit "bridge-anna", false) ∷ [];
  siprec = (lit "anna", lit "100") ∷ [];
  announcer = new_queue_announcer;
  ringing = (lit "anna", 5) ∷ [];
  agents = [];
  rings = [];
  transfers = [];
}

-- Hold and resume leave the session as it was.
held :
    (handle_call_resume (lit "bridge-anna") (handle_call_hold (lit "bridge-anna") office).0).0
    ≡ office
unfolding handle_call_hold handle_call_resume set_hold get put same
held = refl

abbrev to_support : TransferRequest
to_support = record {
  call_id = lit "bridge-anna";
  target_type = lit "queue";
  target_value = lit "Support";
  target = [];
  department = [];
  agent_id = [];
}

abbrev pick_anna : PickRequest
pick_anna = record {
  queue_entry_id = [];
  call_id = lit "anna";
  agent_id = lit "eve";
  webrtc_bridge = true;
}

handle_pick_call-Picked_example : Picked pick_anna office (handle_pick_call pick_anna office)
handle_pick_call-Picked_example = handle_pick_call-Picked pick_anna office
