-- ===== src/Calls/Conference/Tests.antt =====
-- One call and its conferences.
use voiceagent.Base.{refl, false, List, [], ◌∷◌, none, some, All, lit}
use voiceagent.Calls.Conference.{
  ConferenceSession, CallSession, Floor, ConferenceStep, conference, drop_who, barge, answered,
  run_conferences,
}
use voiceagent.Calls.Conference.Thirds.{OnlyExternal, run_conferences-OnlyExternal}

abbrev call : CallSession
call = record {
  caller_number = lit "100";
  conference = some 0;
  audio_taps = [];
  agent_taps = [];
  whispers = false;
}

abbrev with_eve : ConferenceSession
with_eve = record {
  call_id = lit "c1";
  third_type = lit "agent";
  third_id = lit "eve";
  third_active = false;
  third_wrtc = none;
  third_rtp = none;
  cancelled = false;
}

abbrev meeting : Floor
meeting = record {
  calls = (lit "c1", call) ∷ [];
  conferences = (lit "c1", 0) ∷ [];
  objects = with_eve ∷ [];
  webrtc_sessions = [];
  closed_wrtc = [];
  closed_rtp = [];
  rung = [];
}

abbrev later : List ConferenceStep
later =
    answered 1 7
    ∷ drop_who (lit "c1") (lit "self")
    ∷ drop_who (lit "c1") (lit "self")
    ∷ barge (lit "c1") (lit "boss")
    ∷ conference (lit "bridge-c1") (lit "eve") []
    ∷ []

run_conferences-OnlyExternal_example : All OnlyExternal (run_conferences later meeting).objects
run_conferences-OnlyExternal_example =
    run_conferences-OnlyExternal later meeting (λ other. refl, tt)
