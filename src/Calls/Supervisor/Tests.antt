-- ===== src/Calls/Supervisor/Tests.antt =====
-- One call that two supervisors may watch.
use voiceagent.Base.{◌≡◌, refl, true, false, [], ◌∷◌, none, arith, lit, same, get}
use voiceagent.Audio.Mixer.{AudioMixer, mix_excluding, frames_of, idle}
use voiceagent.Calls.Conference.{CallSession, Floor}
use voiceagent.Calls.Supervisor.{
  Watch, connected, session_key, handle_supervisor_monitor, handle_supervisor_stop, supervisor_tick,
}
use voiceagent.Calls.Supervisor.Watching.{handle_supervisor_stop-handle_supervisor_monitor}
use voiceagent.Calls.Supervisor.Sound.{supervisor_tick-mix_excluding}

abbrev call : CallSession
call = record {
  caller_number = lit "100";
  conference = none;
  audio_taps = 1 ∷ [];
  agent_taps = 2 ∷ [];
  whispers = false;
}

abbrev quiet_floor : Floor
quiet_floor = record {
  calls = (lit "c12", call) ∷ [];
  conferences = [];
  objects = [];
  webrtc_sessions = [];
  closed_wrtc = [];
  closed_rtp = [];
  rung = [];
}

abbrev night : Watch
night = record { floor = quiet_floor; supervisors = []; next_tap = 5 }

handle_supervisor_stop-handle_supervisor_monitor_example :
    let after : Watch =
      handle_supervisor_stop
        (lit "u1")
        (lit "c12")
        (handle_supervisor_monitor connected
          (lit "u1")
          (lit "c12")
          (lit "listen")
          (lit "v=0")
          night).0 in
    (get (lit "c12") after.floor.calls ≡ get (lit "c12") night.floor.calls)
    × (get (lit "c12") after.supervisors ≡ get (lit "c12") night.supervisors)
unfolding get same session_key
handle_supervisor_stop-handle_supervisor_monitor_example =
    handle_supervisor_stop-handle_supervisor_monitor (lit "u1") (lit "c12") (lit "listen")
      (lit "v=0") (lit "c12") night call (refl, (refl, (refl, (refl, refl)))) refl refl refl
      ((omega arith, tt), (omega arith, tt))

abbrev speaking : AudioMixer
speaking = record {
  caller = record { pcm_in = (1 ∷ 2 ∷ []) ∷ []; pcm_out = []; active = true };
  agent = idle true;
  third = idle false;
}

supervisor_tick-mix_excluding_example :
    (supervisor_tick ((1 ∷ 2 ∷ []) ∷ []) []).0 ≡ mix_excluding (frames_of speaking) 2
supervisor_tick-mix_excluding_example = supervisor_tick-mix_excluding speaking refl refl
