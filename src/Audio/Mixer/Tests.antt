-- ===== src/Audio/Mixer/Tests.antt =====
-- The mixer of gateway/conference.go on small frames.
use voiceagent.Base.{◌≡◌, [], ◌∷◌, arith, ◌+ℤ◌, length}
use voiceagent.Audio.Pcm.{InInt16}
use voiceagent.Audio.Mixer.{Frames, mix_excluding, mix_frame_bytes, sample_at, saturate}
use voiceagent.Audio.Mixer.Mixing.{mix_excluding-others}

-- Two loud speakers saturate.
abbrev loud : Frames
loud = record { caller = 0xff ∷ 0x7f ∷ []; agent = 0 ∷ 0x40 ∷ []; third = 0 ∷ 0x60 ∷ [] }

mix_excluding-others_example :
    (length (mix_excluding loud 1) ≡ mix_frame_bytes)
    × (sample_at (mix_excluding loud 1) 0
        ≡ saturate (sample_at loud.caller 0 +ℤ sample_at loud.third 0))
    × InInt16 (sample_at (mix_excluding loud 1) 0)
mix_excluding-others_example = mix_excluding-others loud 1 0 (omega arith) (omega arith)
