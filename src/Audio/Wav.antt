-- ===== src/Audio/Wav.antt =====
-- WAV files: `buildWAV` and `stripWAVHeader` of gateway/main.go, and the interleaving of the two
-- channels of a recording in gateway/recording.go.
pub mod RoundTrip
pub mod Stereo
mod Tests
use voiceagent.Base.{
  ℕ, zero, suc, max, ◌+◌, ◌-◌, ◌*◌, ◌/◌, ◌%◌, ◌^◌, Bool, ◌||◌, not, List, [], ◌∷◌, ◌++◌, Option,
  none, some, map, ltb, leb, if◌then◌else◌, length, take, drop, replicate, get_or, Text, lit, same,
}
use voiceagent.Audio.Pcm.{Bytes}

-- binary.LittleEndian.PutUint16 and PutUint32 of a number, cut to its width.
unfoldable pub le16 : ℕ → Bytes
le16 n = n % 256 ∷ n / 256 % 256 ∷ []

unfoldable pub le32 : ℕ → Bytes
le32 n = n % 256 ∷ n / 256 % 256 ∷ n / 65536 % 256 ∷ n / 16777216 % 256 ∷ []

-- binary.LittleEndian.Uint32 of the first four bytes.
unfoldable pub uint32 : Bytes → ℕ
uint32 b = get_or b 0 0 + get_or b 1 0 * 256 + get_or b 2 0 * 65536 + get_or b 3 0 * 16777216

-- The bytes 12 to 36: the "fmt " chunk.
unfoldable pub fmt_chunk : ℕ → ℕ → ℕ → Bytes
unfolding le16 le32
fmt_chunk rate channels bits =
    lit "fmt "
    ++ le32 16
    ++ le16 1
    ++ le16 channels
    ++ le32 rate
    ++ le32 (rate * channels * bits / 8)
    ++ le16 (channels * bits / 8)
    ++ le16 bits

unfoldable pub build_wav : Bytes → ℕ → ℕ → ℕ → Bytes
build_wav pcm rate channels bits =
    lit "RIFF"
    ++ (le32 (36 + length pcm)
        ++ (lit "WAVE"
            ++ (fmt_chunk rate channels bits ++ (lit "data" ++ (le32 (length pcm) ++ pcm)))))

-- wav[from:to]
abbrev pub slice : Bytes → ℕ → ℕ → Bytes
slice b from to = take (to - from) (drop from b)

-- One round of the loop over the chunks, with what the rounds after it would yield.
unfoldable pub read_chunk : ℕ → Bytes → Option Bytes → Option Bytes
read_chunk pos wav next =
    let end = pos + 8 + uint32 (slice wav (pos + 4) (pos + 8)) in
    if ltb (pos + 8) (length wav)
    then (if same (slice wav pos (pos + 4)) (lit "data")
        then some (slice wav (pos + 8) (if ltb (length wav) end then length wav else end))
        else next)
    else some (drop 44 wav)

-- The loop from `pos` on. The result is `none` only where the fuel runs out.
unfoldable pub find_data : ℕ → ℕ → Bytes → Option Bytes
find_data zero pos wav = none
find_data (suc fuel) pos wav =
    let next = find_data fuel (pos + 8 + uint32 (slice wav (pos + 4) (pos + 8))) wav in
    read_chunk pos wav next

-- The fuel is the length of the file: each chunk takes 8 bytes at least.
unfoldable pub strip_wav_header : Bytes → Option Bytes
strip_wav_header wav =
    if ltb (length wav) 44 || not (same (take 4 wav) (lit "RIFF"))
    then some wav
    else find_data (length wav) 12 wav

-- The samples of one channel as pairs of bytes, the shorter channel padded with silence.
unfoldable pub pad : ℕ → Bytes → Bytes
pad n b = b ++ replicate (n - length b) 0

-- The loop of interleaveStereo: two bytes of the left channel, then two of the right.
unfoldable pub interleave : Bytes → Bytes → Bytes
interleave (a ∷ (b ∷ ls)) (c ∷ (d ∷ rs)) = a ∷ b ∷ c ∷ d ∷ interleave ls rs
interleave [] rs = []
interleave (a ∷ []) rs = []
interleave (a ∷ (b ∷ ls)) [] = []
interleave (a ∷ (b ∷ ls)) (c ∷ []) = []

unfoldable pub interleave_stereo : Bytes → Bytes → Bytes
unfolding pad
interleave_stereo left right =
    let n = max (length left) (length right) in interleave (pad n left) (pad n right)
