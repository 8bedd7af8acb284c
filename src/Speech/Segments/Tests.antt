-- ===== src/Speech/Segments/Tests.antt =====
-- A word, and the silence after it.
use voiceagent.Base.{true, false, [], ◌∷◌}
use voiceagent.Speech.Segments.{SoundFrame, Vad}

abbrev word : SoundFrame
word = record { pcm = 9 ∷ 9 ∷ []; loud = true; playing = false }

abbrev pause : SoundFrame
pause = record { pcm = 0 ∷ 0 ∷ []; loud = false; playing = false }

abbrev talking : Vad
talking = record {
  audio_buf = 9 ∷ 9 ∷ [];
  speech_active = true;
  silent_frames = 29;
  frame_count = 40;
}
