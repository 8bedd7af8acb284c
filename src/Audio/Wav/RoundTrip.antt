-- ===== src/Audio/Wav/RoundTrip.antt =====
-- Reading back what `buildWAV` of gateway/main.go wrote.
use voiceagent.Base.{
  ℕ, zero, suc, ◌+◌, ◌^◌, ◌<◌, ◌≡◌, refl, ap, ◌∙◌, Bool, true, false, [], ◌∷◌, Option, none, some,
  arith, ltb, if◌then◌else◌, length, take, drop, lit, same, ltb→lt, Bool-cases, inl, inr, take_all,
  ◌||◌, not,
}
use voiceagent.Audio.Pcm.{Bytes}
use voiceagent.Audio.Wav.{
  le16, le32, uint32, fmt_chunk, build_wav, slice, read_chunk, find_data, strip_wav_header,
}

-- A round yields a result if the next one would, or at the end of the file.
read_chunk_total :
    (pos : ℕ) (wav : Bytes) (next : Option Bytes)
    → (pos + 8 < length wav → (out : Bytes) × (next ≡ some out))
    → (out : Bytes) × (read_chunk pos wav next ≡ some out)
unfolding read_chunk
read_chunk_total pos wav next h = elim (Bool-cases (ltb (pos + 8) (length wav))) [
  | inr e ↦ (drop 44 wav, rw e)
  | inl e ↦ elim (Bool-cases (same (slice wav pos (pos + 4)) (lit "data"))) [
    | inl d ↦ (slice wav (pos + 8) (if ltb (length wav) end then length wav else end), rw (e, d))
    | inr d ↦ rw (e, d) (h (ltb→lt _ _ e))
  ]
]
  where
    end : ℕ
    end = pos + 8 + uint32 (slice wav (pos + 4) (pos + 8))

-- A scan with more fuel than bytes left ends.
find_data_total :
    (fuel pos : ℕ) (wav : Bytes)
    → length wav < fuel + pos
    → (out : Bytes) × (find_data (suc fuel) pos wav ≡ some out)
unfolding find_data
find_data_total zero pos wav h = read_chunk_total pos wav none (λ lt. absurd (omega arith))
find_data_total (suc fuel) pos wav h =
    read_chunk_total pos wav _ λ lt.
      find_data_total fuel (pos + 8 + uint32 (slice wav (pos + 4) (pos + 8))) wav (omega arith)

-- Whatever the chunk sizes in a file say, the scan ends within the fuel given, that is the file's
-- length.
pub strip_wav_header_total : (wav : Bytes) → (out : Bytes) × (strip_wav_header wav ≡ some out)
unfolding strip_wav_header
strip_wav_header_total [] = ([], refl)
strip_wav_header_total (b ∷ bs) =
    elim (Bool-cases (ltb (length (b ∷ bs)) 44 || not (same (take 4 (b ∷ bs)) (lit "RIFF")))) [
      | inl e ↦ (b ∷ bs, rw e)
      | inr e ↦ rw e (find_data_total (length bs) 12 (b ∷ bs) (omega arith))
    ]

uint32-le32 : (n : ℕ) → n < 2 ^ 32 → uint32 (le32 n) ≡ n
unfolding uint32 le32
uint32-le32 n h = omega arith

either_way :
    (b : Bool) (n : ℕ) (pcm : Bytes)
    → n ≡ length pcm
    → (if b then some (take n pcm) else some pcm) ≡ some pcm
either_way true n pcm e = rw e (ap some (take_all pcm))
either_way false n pcm e = refl

module _ (pcm : Bytes) (rate channels bits : ℕ) where
  abbrev wav : Bytes
  wav = build_wav pcm rate channels bits

  at_fmt : (f : ℕ) → find_data (suc f) 12 wav ≡ find_data f 36 wav
  unfolding find_data read_chunk build_wav fmt_chunk le32 le16 uint32 same
  at_fmt f = ground arith

  at_data : (f : ℕ) → length pcm < 2 ^ 32 → find_data (suc f) 36 wav ≡ some pcm
  unfolding find_data read_chunk build_wav fmt_chunk le16 same
  at_data f h = rw (uint32-le32 (length pcm) h) (either_way _ _ pcm (ground arith))

  length-wav : length wav ≡ suc (suc (42 + length pcm))
  unfolding build_wav fmt_chunk le32 le16
  length-wav = omega arith

  is_riff : same (take 4 wav) (lit "RIFF") ≡ true
  unfolding build_wav same
  is_riff = refl

  long_enough : ltb (length wav) 44 ≡ false
  long_enough = ground (arith, length-wav)

  -- The PCM data comes back whole, whatever the format, if its length fits the header's 32 bits.
  pub strip_wav_header-build_wav :
      length pcm < 2 ^ 32 → strip_wav_header (build_wav pcm rate channels bits) ≡ some pcm
  unfolding strip_wav_header
  strip_wav_header-build_wav h =
      rw (long_enough, is_riff, length-wav)
        (at_fmt (suc (42 + length pcm)) ∙ at_data (42 + length pcm) h)
