-- ===== src/Speech/Chunks.antt =====
-- The chunks of a recorded leg, runSTT of gateway/siprec.go: five seconds of frames at a time. Of a frame
-- come its bytes and whether the speech service is busy then. The analysis of the voice is left out.
pub mod Whole
mod Tests
use voiceagent.Base.{
  ℕ, ◌+◌, ◌-◌, ◌%◌, Bool, true, false, ◌&&◌, not, List, [], ◌∷◌, ◌++◌, Option, none, some,
  if◌then◌else◌, leb, ◌==◌, is_empty,
}
use voiceagent.Audio.Pcm.{Bytes}

-- 500 ms and 5000 ms of frames of 20 ms.
abbrev pub warmup_frames : ℕ
warmup_frames = 25

abbrev pub chunk_frames : ℕ
chunk_frames = 250

pub record LegFrame : Type 0 where
  pub pcm : Bytes
  pub whisper_busy : Bool

pub record Leg : Type 0 where
  pub audio_buf : Bytes
  pub frame_count : ℕ

unfoldable pub new_leg : Leg
new_leg = record { audio_buf = []; frame_count = 0 }

-- A chunk is transcribed, or skipped when the service is busy.
pub data Chunk : Type 0 where
  sent : Bytes → Chunk
  skipped : Bytes → Chunk

unfoldable pub flush_chunk : Bool → Leg → Leg × Option Chunk
flush_chunk busy leg = (
  record leg { audio_buf = [] },
  some (if busy then skipped leg.audio_buf else sent leg.audio_buf),
)

unfoldable pub leg_step : LegFrame → Leg → Leg × Option Chunk
unfolding flush_chunk
leg_step f leg =
    let count = leg.frame_count + 1 in
    if leb count warmup_frames
    then (record leg { frame_count = count }, none)
    else let grown : Leg = record { audio_buf = leg.audio_buf ++ f.pcm; frame_count = count } in
      if (count - warmup_frames) % chunk_frames == 0 && not (is_empty grown.audio_buf)
      then flush_chunk f.whisper_busy grown
      else (grown, none)

abbrev pub add_chunk : Option Chunk → List Chunk → List Chunk
add_chunk none rest = rest
add_chunk (some c) rest = c ∷ rest

unfoldable pub run_leg : List LegFrame → Leg → Leg × List Chunk
run_leg [] leg = (leg, [])
run_leg (f ∷ fs) leg =
    let (leg', chunk) = leg_step f leg in
    let (leg'', rest) = run_leg fs leg' in (leg'', add_chunk chunk rest)

-- The chunk that is transcribed when the channel closes or the call ends.
unfoldable pub last_chunk : Leg → List Chunk
last_chunk leg = if is_empty leg.audio_buf then [] else sent leg.audio_buf ∷ []

-- The transcribed and skipped chunks of a leg from its first frame to its last.
unfoldable pub run_stt : List LegFrame → List Chunk
unfolding last_chunk
run_stt fs = let (leg, chunks) = run_leg fs new_leg in chunks ++ last_chunk leg
