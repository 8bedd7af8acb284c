-- ===== src/Speech/Segments/Utterance.antt =====
-- One utterance of gateway/main.go, from its first frames to the silence that ends it.
use voiceagent.Base.{
  ℕ, ◌+◌, ◌≡◌, Bool, true, false, List, [], ◌∷◌, ◌++◌, if◌then◌else◌, leb, is_empty,
}
use voiceagent.Audio.Pcm.{Bytes}
use voiceagent.Speech.Segments.{SoundFrame, Vad, silence_limit}

-- With `k` quiet frames before them, the frames end with the 30th quiet one in a row, and have no such
-- row before it.
unfoldable pub ends_after : ℕ → List SoundFrame → Bool
ends_after k [] = false
ends_after k (f ∷ fs) =
    let from_zero = ends_after 0 fs in
    let next = ends_after (k + 1) fs in
    if f.loud then from_zero else if leb silence_limit (k + 1) then is_empty fs else next

unfoldable pub said : List SoundFrame → Bytes
said [] = []
said (f ∷ fs) = f.pcm ++ said fs

abbrev pub IsQuietLine : SoundFrame → Type 0
IsQuietLine f = f.playing ≡ false

abbrev longer : SoundFrame → ℕ → Vad → Vad
longer f silent v = record {
  audio_buf = v.audio_buf ++ f.pcm;
  speech_active = true;
  silent_frames = silent;
  frame_count = v.frame_count + 1;
}
