-- ===== src/Audio/G711/Tests.antt =====
-- Runs of the codec of gateway/codec.go on concrete frames.
use voiceagent.Base.{same, ◌≡◌, refl, pos, negsuc, lit, arith}
use voiceagent.Audio.G711.{
  linear_to_ulaw, pack_code, find_exponent, biased_magnitude, ulaw_to_linear,
  codec_from_payload_type, payload_type_for_codec,
}
use voiceagent.Audio.G711.Reference.{ulaw_value}
use voiceagent.Audio.G711.Encode.{WithinHalfStep, linear_to_ulaw-WithinHalfStep}

linear_to_ulaw-WithinHalfStep_example : WithinHalfStep (negsuc 1233) (linear_to_ulaw (negsuc 1233))
linear_to_ulaw-WithinHalfStep_example =
    linear_to_ulaw-WithinHalfStep (negsuc 1233) (omega arith) (omega arith)

-- The one sample that the encoder mishandles: -32768 gets the code of a negative zero.
most_negative : linear_to_ulaw (negsuc 32767) ≡ 0x7f
unfolding linear_to_ulaw biased_magnitude pack_code find_exponent
most_negative = refl

-- μ-law silence, which stands for 0, is decoded to -120.
silence : (ulaw_to_linear 0xff ≡ negsuc 119) × (ulaw_value 0xff ≡ pos 0)
unfolding ulaw_to_linear ulaw_value
silence = (refl, refl)

-- The payload types of the two G.711 codecs name them back.
payload_types :
    (codec_from_payload_type (payload_type_for_codec (lit "PCMU")) ≡ lit "PCMU")
    × (codec_from_payload_type (payload_type_for_codec (lit "PCMA")) ≡ lit "PCMA")
unfolding codec_from_payload_type payload_type_for_codec same
payload_types = (refl, refl)
