-- ===== src/Audio/G711.antt =====
-- The G.711 codec of gateway/codec.go: the encoder, the two decode tables, frame transcoding, and the
-- step from 8 kHz to 16 kHz. An int16 is an integer; where Go wraps, the wrap is written out.
pub mod Reference
pub mod Encode
pub mod Decode
pub mod Resample
mod Tests
use Prim.Native.Nat.{bit_or, bit_xor}
use voiceagent.Base.{
  ℕ, zero, suc, ◌+◌, ◌-◌, ◌*◌, ◌/◌, ◌%◌, ◌^◌, Bool, ◌&&◌, ◌||◌, List, [], ◌∷◌, map, ltb, leb, ◌==◌,
  if◌then◌else◌, ℤ, pos, negsuc, pos_part, neg_part, ◌+ℤ◌, ◌-ℤ◌, ltb_ℤ, Text, lit, same,
}
use voiceagent.Audio.Pcm.{Bytes, int16, uint16, samples, put_samples}

abbrev pub bias : ℤ
bias = pos 132

abbrev pub clip : ℤ
clip = pos 32635

-- -s as an int16: -(-32768) is -32768 again.
unfoldable pub neg16 : ℤ → ℤ
unfolding ◌-ℤ◌ int16 uint16
neg16 s = int16 (uint16 (pos 0 -ℤ s))

-- a + b as an int16.
unfoldable pub add16 : ℤ → ℤ → ℤ
unfolding ◌+ℤ◌ int16 uint16
add16 a b = int16 (uint16 (a +ℤ b))

-- `for expMask := 0x4000; (sample & expMask) == 0 && exponent > 0; exponent-- { expMask >>= 1 }`
-- over the bit pattern of the sample.
unfoldable pub find_exponent : ℕ → ℕ → ℕ → ℕ
find_exponent zero mask w = 0
find_exponent (suc e) mask w = if w / mask % 2 == 0 then find_exponent e (mask / 2) w else suc e

-- `^(sign | (exponent << 4) | mantissa)`: the three fields share no bit. The mantissa is bits
-- exponent + 3 to exponent + 6 of the sample.
unfoldable pub pack_code : ℕ → ℕ → ℕ
pack_code sign w = let e = find_exponent 7 16384 w in 255 - (sign + e * 16 + w / 2 ^ (e + 3) % 16)

-- The sample clipped and biased, as the bit pattern that the exponent is read from.
unfoldable pub biased_magnitude : ℤ → ℕ
unfolding neg16 add16 uint16
biased_magnitude s =
    let magnitude = if ltb_ℤ s (pos 0) then neg16 s else s in
    uint16 (add16 (if ltb_ℤ clip magnitude then clip else magnitude) bias)

unfoldable pub linear_to_ulaw : ℤ → ℕ
linear_to_ulaw s = pack_code (if ltb_ℤ s (pos 0) then 128 else 0) (biased_magnitude s)

-- sign * n, for a sign of 1 or -1.
unfoldable pub with_sign : Bool → ℤ → ℤ
unfolding ◌-ℤ◌
with_sign negative n = if negative then pos 0 -ℤ n else n

-- Entry i of the table `ulawToLinear` that `init` builds.
unfoldable pub ulaw_to_linear : ℕ → ℤ
unfolding with_sign ◌-ℤ◌
ulaw_to_linear i =
    let b = 255 - i in
    let e = b / 16 % 8 in
    let m = b % 16 in
    let sample = bit_or (bit_or (m * 2 ^ (e + 3)) (2 ^ (e + 3))) (2 ^ (e + 2)) in
    with_sign (leb 128 b) (pos sample -ℤ bias)

-- Entry i of the table `alawToLinear`.
unfoldable pub alaw_to_linear : ℕ → ℤ
unfolding with_sign ◌-ℤ◌
alaw_to_linear i =
    let b = bit_xor i 0x55 in
    let e = b / 16 % 8 in
    let m = b % 16 in
    let sample = if e == 0 then bit_or (m * 16) 8 else bit_or m 16 * 2 ^ (e + 3) in
    with_sign (leb 128 b) (pos sample)

unfoldable pub decode_g711_ulaw : Bytes → Bytes
decode_g711_ulaw ulaw = put_samples (map ulaw_to_linear ulaw)

unfoldable pub decode_g711_alaw : Bytes → Bytes
decode_g711_alaw alaw = put_samples (map alaw_to_linear alaw)

unfoldable pub encode_g711_ulaw : Bytes → Bytes
encode_g711_ulaw pcm = map linear_to_ulaw (samples pcm)

unfoldable pub is_ulaw_name : Text → Bool
is_ulaw_name codec =
    same codec (lit "PCMU")
    || same codec (lit "pcmu")
    || same codec (lit "g711u")
    || same codec (lit "ulaw")

unfoldable pub is_alaw_name : Text → Bool
is_alaw_name codec =
    same codec (lit "PCMA")
    || same codec (lit "pcma")
    || same codec (lit "g711a")
    || same codec (lit "alaw")

-- L16 and every unknown codec pass through.
unfoldable pub transcode_frame : Bytes → Text → Bytes
transcode_frame frame codec =
    if is_ulaw_name codec
    then decode_g711_ulaw frame
    else if is_alaw_name codec
    then decode_g711_alaw frame
    else frame

-- int16((int32(s) + int32(next)) / 2): Go's division drops the fraction towards zero.
unfoldable pub average : ℤ → ℤ → ℤ
unfolding ◌+ℤ◌ ◌-ℤ◌
average s t = let sum = s +ℤ t in pos (pos_part sum / 2) -ℤ pos (neg_part sum / 2)

abbrev pub head_or : ℤ → List ℤ → ℤ
head_or s [] = s
head_or s (t ∷ ts) = t

-- The loop of ResampleG711toL16: each sample, then the middle between it and the next.
unfoldable pub upsample : List ℤ → List ℤ
upsample [] = []
upsample (s ∷ ss) = s ∷ average s (head_or s ss) ∷ upsample ss

unfoldable pub resample_g711_to_l16 : Bytes → Text → Bytes
resample_g711_to_l16 g711 codec = put_samples (upsample (samples (transcode_frame g711 codec)))

unfoldable pub codec_from_payload_type : ℕ → Text
codec_from_payload_type pt =
    if pt == 0
    then lit "PCMU"
    else if pt == 8
    then lit "PCMA"
    else if pt == 18
    then lit "G729"
    else if leb 96 pt && leb pt 107
    then lit "dynamic"
    else lit "unknown"

-- gateway/rtplistener.go.
unfoldable pub payload_type_for_codec : Text → ℕ
payload_type_for_codec codec =
    if same codec (lit "PCMU") || same codec (lit "pcmu") || same codec (lit "ulaw")
    then 0
    else if same codec (lit "PCMA") || same codec (lit "pcma") || same codec (lit "alaw")
    then 8
    else 0

-- G711ToL16Ratio.
unfoldable pub g711_to_l16_ratio : ℕ
g711_to_l16_ratio = 4
