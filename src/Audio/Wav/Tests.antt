-- ===== src/Audio/Wav/Tests.antt =====
-- WAV files of a few bytes (gateway/main.go, gateway/recording.go).
use voiceagent.Base.{◌≡◌, refl, [], ◌∷◌, some, arith}
use voiceagent.Audio.Pcm.{Bytes}
use voiceagent.Audio.Wav.{build_wav, strip_wav_header, interleave_stereo, interleave, pad}
use voiceagent.Audio.Wav.RoundTrip.{strip_wav_header-build_wav}

abbrev pcm : Bytes
pcm = 1 ∷ 2 ∷ 3 ∷ 4 ∷ 5 ∷ []

strip_wav_header-build_wav_example : strip_wav_header (build_wav pcm 16000 2 16) ≡ some pcm
strip_wav_header-build_wav_example = strip_wav_header-build_wav pcm 16000 2 16 (omega arith)

padded : interleave_stereo (1 ∷ 2 ∷ 3 ∷ 4 ∷ []) (7 ∷ 8 ∷ []) ≡ 1 ∷ 2 ∷ 7 ∷ 8 ∷ 3 ∷ 4 ∷ 0 ∷ 0 ∷ []
unfolding interleave_stereo interleave pad
padded = refl
