-- ===== src/Speech/Segments.antt =====
-- The detection of utterances by sttPipeline of gateway/main.go. Of a frame come its bytes, whether its
-- energy is over the threshold, and whether the gateway plays at that time.
pub mod Utterance
pub mod Limits
mod Tests
use voiceagent.Base.{
  ℕ, ◌+◌, ◌*◌, Bool, true, false, ◌&&◌, not, List, [], ◌∷◌, ◌++◌, Option, none, some, if◌then◌else◌,
  ltb, leb, length, is_empty,
}
use voiceagent.Audio.Pcm.{Bytes}

-- 600 ms of frames of 20 ms, 8 s of 16000 samples of 2 bytes, and 500 ms of frames.
abbrev pub silence_limit : ℕ
silence_limit = 30

abbrev pub max_bytes : ℕ
max_bytes = 8 * 16000 * 2

abbrev pub warmup_frames : ℕ
warmup_frames = 25

pub record SoundFrame : Type 0 where
  pub pcm : Bytes
  pub loud : Bool
  pub playing : Bool

pub record Vad : Type 0 where
  pub audio_buf : Bytes
  pub speech_active : Bool
  pub silent_frames : ℕ
  pub frame_count : ℕ

unfoldable pub new_vad : Vad
new_vad = record { audio_buf = []; speech_active = false; silent_frames = 0; frame_count = 0 }

abbrev pub reset : Vad → Vad
reset v = record v { audio_buf = []; speech_active = false; silent_frames = 0 }

-- A quiet frame in speech: the utterance ends with enough of them.
unfoldable pub fall_silent : Vad → Vad × Option Bytes
fall_silent v = if leb silence_limit v.silent_frames then (reset v, some v.audio_buf) else (v, none)

unfoldable pub listen : SoundFrame → Vad → Vad × Option Bytes
unfolding fall_silent
listen f v =
    if f.loud
    then (
      record v { audio_buf = v.audio_buf ++ f.pcm; speech_active = true; silent_frames = 0 },
      none,
    )
    else if v.speech_active
    then fall_silent
        (record v { audio_buf = v.audio_buf ++ f.pcm; silent_frames = v.silent_frames + 1 })
    else (v, none)

-- The guard against growth, after which nothing is in the buffer.
unfoldable pub cap : Vad × Option Bytes → Vad × Option Bytes
cap (v, sent) =
    if ltb max_bytes (length v.audio_buf)
    then (reset v, if v.speech_active then some v.audio_buf else sent)
    else (v, sent)

-- One frame, and the utterance that is transcribed with it.
unfoldable pub vad_step : SoundFrame → Vad → Vad × Option Bytes
unfolding listen cap
vad_step f v =
    let v' = record v { frame_count = v.frame_count + 1 } in
    if leb v'.frame_count warmup_frames
    then (v', none)
    else if f.playing
    then (if v'.speech_active then (reset v', none) else (v', none))
    else cap (listen f v')

abbrev pub add_sent : Option Bytes → List Bytes → List Bytes
add_sent none rest = rest
add_sent (some u) rest = u ∷ rest

unfoldable pub run_vad : List SoundFrame → Vad → Vad × List Bytes
run_vad [] v = (v, [])
run_vad (f ∷ fs) v =
    let (v', sent) = vad_step f v in let (v'', rest) = run_vad fs v' in (v'', add_sent sent rest)

-- What is transcribed when the input ends.
unfoldable pub end_of_input : Vad → Option Bytes
end_of_input v = if not (is_empty v.audio_buf) && v.speech_active then some v.audio_buf else none
