-- ===== src/Audio/G711/Reference.antt =====
-- ITU-T G.711, as the standard's decoders give it in 16-bit samples: what a code stands for.
use Prim.Native.Nat.{bit_xor}
use voiceagent.Base.{ℕ, ◌+◌, ◌-◌, ◌*◌, ◌/◌, ◌%◌, ◌^◌, leb, ◌==◌, if◌then◌else◌, ℤ, pos, ◌-ℤ◌}

-- The fields of a code whose bits have been put upright.
abbrev pub exponent : ℕ → ℕ
exponent b = b / 16 % 8

abbrev pub mantissa : ℕ → ℕ
mantissa b = b % 16

-- The magnitude of a μ-law code: the middle of its interval, less the bias.
abbrev pub ulaw_magnitude : ℕ → ℕ
ulaw_magnitude b = (mantissa b * 8 + 132) * 2 ^ exponent b - 132

-- A code stands for -x where its inverted sign bit is set.
unfoldable pub ulaw_value : ℕ → ℤ
unfolding ◌-ℤ◌
ulaw_value code =
    let b = 255 - code in
    if leb 128 b then pos 0 -ℤ pos (ulaw_magnitude b) else pos (ulaw_magnitude b)

abbrev pub alaw_magnitude : ℕ → ℕ
alaw_magnitude b =
    if exponent b == 0 then mantissa b * 16 + 8 else (mantissa b * 16 + 264) * 2 ^ (exponent b - 1)

-- In A-law a sign bit that is set means a positive value.
unfoldable pub alaw_value : ℕ → ℤ
unfolding ◌-ℤ◌
alaw_value code =
    let b = bit_xor code 0x55 in
    if leb 128 b then pos (alaw_magnitude b) else pos 0 -ℤ pos (alaw_magnitude b)
