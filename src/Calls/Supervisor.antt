-- ===== src/Calls/Supervisor.antt =====
-- Supervisors of gateway/supervisor.go, who listen to a call, whisper to its agent or barge in, with the
-- taps of gateway/siprec.go. The WebRTC library decides how a peer connection comes off. A tap is a
-- number; closing its channel and sending on the browser's track are left out.
pub mod Watching
pub mod Sound
mod Tests
use voiceagent.Base.{
  ℕ, zero, suc, ◌+◌, Bool, true, false, ◌&&◌, ◌||◌, not, List, [], ◌∷◌, ◌++◌, Option, none, some,
  if◌then◌else◌, ◌==◌, ltb, length, ℤ, pos, ◌+ℤ◌, Text, lit, same, is_empty, has_prefix, get, put,
  del,
}
use voiceagent.Audio.Pcm.{Bytes, put_samples}
use voiceagent.Audio.Mixer.{mix_frame_samples, silence, sample_at, saturate, oldest, rest_of}
use voiceagent.Calls.Conference.{CallSession, Floor, start_conference, registered, drop_third_party}

pub record SupervisorSession : Type 0 where
  pub call_id : Text
  pub mode : Text
  pub caller_tap : ℕ
  pub agent_tap : ℕ

pub record Watch : Type 0 where
  pub floor : Floor
  pub supervisors : List (Text × SupervisorSession)
  pub next_tap : ℕ

-- How the peer connection comes off: it is not made, it is refused with a code after the whisper channel
-- was made, or it stands.
pub data Peer : Type 0 where
  not_made : Peer
  refused : ℕ → Peer
  connected : Peer

-- The loop of RemoveAudioTap and RemoveAgentTap.
unfoldable pub remove_tap : ℕ → List ℕ → List ℕ
remove_tap tap [] = []
remove_tap tap (t ∷ ts) = if t == tap then ts else t ∷ remove_tap tap ts

abbrev pub change_call :
    Text → (CallSession → CallSession) → List (Text × CallSession) → List (Text × CallSession)
change_call id f calls = elim (get id calls) [ none ↦ calls | some s ↦ put id (f s) calls ]

-- The key of a session, the call and the user around a colon, byte 58.
unfoldable pub session_key : Text → Text → Text
session_key call_id user = call_id ++ 58 ∷ user

abbrev pub user_or_default : Text → Text
user_or_default user = if is_empty user then lit "supervisor" else user

abbrev pub make_whisper : Text → CallSession → CallSession
make_whisper mode s = if same mode (lit "whisper") then record s { whispers = true } else s

abbrev pub add_taps : ℕ → CallSession → CallSession
add_taps tap s = record s {
  audio_taps = s.audio_taps ++ (tap ∷ []);
  agent_taps = s.agent_taps ++ (suc tap ∷ []);
}

-- The peer connection stands: both taps are added and the session is registered.
unfoldable pub watch_call : Text → Text → Text → Watch → Watch
watch_call call_id mode user w =
    let tap = w.next_tap in
    record {
      floor = record w.floor {
        calls = change_call call_id (λ s. add_taps tap (make_whisper mode s)) w.floor.calls;
      };
      supervisors =
          put (session_key call_id user)
            (record { call_id = call_id; mode = mode; caller_tap = tap; agent_tap = suc tap })
            w.supervisors;
      next_tap = tap + 2;
    }

unfoldable pub join_call : Peer → Text → Text → Text → Watch → Watch × ℕ
join_call not_made call_id mode user w = (w, 500)
join_call (refused code) call_id mode user w = (
  record w {
    floor = record w.floor { calls = change_call call_id (make_whisper mode) w.floor.calls };
  },
  code,
)
join_call connected call_id mode user w = (watch_call call_id mode user w, 200)

-- `user` is the answer of getUserIDFromRequest, `sdp` the offer of the request.
unfoldable pub handle_supervisor_monitor : Peer → Text → Text → Text → Text → Watch → Watch × ℕ
handle_supervisor_monitor peer user call_id mode sdp w =
    if is_empty call_id || is_empty mode then (w, 400) else elim (get call_id w.floor.calls) [
      | none ↦ (w, 404)
      | some s ↦
          if same mode (lit "barge")
          then (
            record w {
              floor = (start_conference call_id (lit "agent") (user_or_default user) w.floor).0;
            },
            200,
          )
          else if is_empty sdp
          then (w, 400)
          else join_call peer call_id mode (user_or_default user) w
    ]

abbrev pub drop_taps : SupervisorSession → CallSession → CallSession
drop_taps v s = record s {
  audio_taps = remove_tap v.caller_tap s.audio_taps;
  agent_taps = remove_tap v.agent_tap s.agent_taps;
  whispers = if same v.mode (lit "whisper") then false else s.whispers;
}

unfoldable pub stop_supervisor_session : Text → Text → Watch → Watch
stop_supervisor_session call_id user w = elim (get (session_key call_id user) w.supervisors) [
  | none ↦ w
  | some v ↦ record w {
    floor = record w.floor { calls = change_call v.call_id (drop_taps v) w.floor.calls };
    supervisors = del (session_key call_id user) w.supervisors;
  }
]

unfoldable pub drop_if_conference : Text → Watch → Watch
drop_if_conference call_id w = elim (get call_id w.floor.conferences) [
  | none ↦ w
  | some i ↦ record w { floor = (drop_third_party call_id w.floor).0 }
]

unfoldable pub handle_supervisor_stop : Text → Text → Watch → Watch
unfolding drop_if_conference
handle_supervisor_stop user call_id w =
    drop_if_conference call_id (stop_supervisor_session call_id (user_or_default user) w)

-- The loop over the keys: a key that is longer than the call's id and begins with it.
unfoldable pub is_monitored : Text → List (Text × SupervisorSession) → Bool
is_monitored call_id [] = false
is_monitored call_id ((k, v) ∷ m) =
    (ltb (length call_id) (length k) && has_prefix k call_id) || is_monitored call_id m

-- Sample i of the frame for the supervisor, of caller and agent.
unfoldable pub supervisor_sample : Bytes → Bytes → ℕ → ℤ
supervisor_sample caller agent i = saturate (pos 0 +ℤ sample_at caller i +ℤ sample_at agent i)

unfoldable pub supervisor_from : Bytes → Bytes → ℕ → ℕ → List ℤ
supervisor_from caller agent i zero = []
supervisor_from caller agent i (suc n) =
    supervisor_sample caller agent i ∷ supervisor_from caller agent (i + 1) n

-- One round of supervisorAudioLoop: the frame that is mixed, before it is coded, and the two channels.
unfoldable pub supervisor_tick : List Bytes → List Bytes → Bytes × (List Bytes × List Bytes)
supervisor_tick caller_tap agent_tap = (
  put_samples (supervisor_from (oldest caller_tap) (oldest agent_tap) 0 mix_frame_samples),
  (rest_of caller_tap, rest_of agent_tap),
)
