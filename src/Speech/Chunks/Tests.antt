-- ===== src/Speech/Chunks/Tests.antt =====
-- A short leg.
use voiceagent.Base.{◌≡◌, false, List, [], ◌∷◌, drop, replicate}
use voiceagent.Speech.Chunks.{LegFrame, warmup_frames, run_stt}
use voiceagent.Speech.Chunks.Whole.{sound_of, joined_chunks, run_stt-sound_of}

abbrev noise : LegFrame
noise = record { pcm = 1 ∷ 2 ∷ []; whisper_busy = false }

abbrev short_leg : List LegFrame
short_leg = replicate 30 noise

run_stt-sound_of_example :
    joined_chunks (run_stt short_leg) ≡ sound_of (drop warmup_frames short_leg)
run_stt-sound_of_example = run_stt-sound_of short_leg
