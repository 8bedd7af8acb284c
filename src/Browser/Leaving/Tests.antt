-- ===== src/Browser/Leaving/Tests.antt =====
-- An agent who hangs up.
use voiceagent.Base.{◌-◌, ◌≡◌, false, [], ◌∷◌, ◌++◌, Text, none, some, lit, get}
use voiceagent.Calls.Queue.{new_queue_manager, all_callers, has_call_id}
use voiceagent.Calls.Queue.Taking.{count_if}
use voiceagent.Calls.Announcer.{new_queue_announcer}
use voiceagent.Sip.Hangup.{bridge_id}
use voiceagent.Browser.Leaving.{Desk}
use voiceagent.Browser.Leaving.Steps.{hung_up}
use voiceagent.Browser.Leaving.Kept.{Ended, ByeSent, handle_hangup_keeps}

abbrev in_call : Desk
in_call = record {
  live = record {
    sessions = (lit "c1_caller", 30000) ∷ [];
    closed = [];
    bridges = (lit "bridge-c1", lit "eve") ∷ [];
    agents = [];
    announcer = new_queue_announcer;
    queues = new_queue_manager;
    ringing = (lit "c1", 5) ∷ [];
  };
  copilots =
      (lit "c1", record { cancelled = false; rtp_port = some 30000; rtp_cancelled = false }) ∷ [];
  states = [];
  byes = [];
}

handle_hangup_keeps_example :
    let source : Text → Text = λ k. lit "10.0.0.7:5060" in
    let after : Desk = hung_up 9 source (lit "c1") in_call in
    (get (bridge_id (lit "c1")) after.live.bridges ≡ none)
    × (Ended
          (get (lit "c1") in_call.copilots)
          (get (lit "c1") after.copilots)
          in_call.live.closed
          after.live.closed
        × (ByeSent source (lit "c1") in_call.live.sessions in_call.byes after.byes
            × ((after.states ≡ in_call.states ++ ((lit "c1", lit "ended") ∷ []))
                × ((count_if (has_call_id (lit "c1")) (all_callers after.live.queues)
                      ≡ count_if (has_call_id (lit "c1")) (all_callers in_call.live.queues) - 1)
                    × ((after.live.sessions ≡ in_call.live.sessions)
                        × ((after.live.announcer ≡ in_call.live.announcer)
                            × (after.live.ringing ≡ in_call.live.ringing)))))))
handle_hangup_keeps_example = handle_hangup_keeps 9 (λ k. lit "10.0.0.7:5060") (lit "c1") in_call
