-- ===== src/Audio/Pcm.antt =====
-- 16-bit little-endian PCM: how the gateway reads and writes samples (encoding/binary and the int16
-- conversions of gateway/codec.go and gateway/conference.go).
use voiceagent.Base.{
  ℕ, ◌+◌, ◌-◌, ◌*◌, ◌/◌, ◌%◌, ◌<◌, ◌≡◌, refl, ap, List, [], ◌∷◌, arith, ltb, if◌then◌else◌, ℤ, pos,
  negsuc, ◌≤ℤ◌, length, All,
}

-- A []byte of PCM.
abbrev pub Bytes : Type 0
Bytes = List ℕ

-- int16(w) of a uint16 w.
unfoldable pub int16 : ℕ → ℤ
int16 w = if ltb w 32768 then pos w else negsuc (65535 - w)

-- uint16(int16(n)): two's complement, for a number of any size.
unfoldable pub uint16 : ℤ → ℕ
uint16 (pos n) = n % 65536
uint16 (negsuc n) = 65535 - n % 65536

-- binary.LittleEndian.Uint16 over a whole buffer: the samples, an odd last byte left out.
unfoldable pub samples : Bytes → List ℤ
samples [] = []
samples (a ∷ []) = []
samples (a ∷ (b ∷ rest)) = int16 (a + b * 256) ∷ samples rest

-- binary.LittleEndian.PutUint16 of each sample.
unfoldable pub put_samples : List ℤ → Bytes
put_samples [] = []
put_samples (s ∷ ss) = (uint16 s % 256) ∷ (uint16 s / 256) ∷ put_samples ss

-- The range of int16.
abbrev pub InInt16 : ℤ → Type 0
InInt16 s = (negsuc 32767 ≤ℤ s) × (s ≤ℤ pos 32767)

abbrev pub IsByte : ℕ → Type 0
IsByte b = b < 256

pub int16_range : (w : ℕ) → w < 65536 → InInt16 (int16 w)
unfolding int16
int16_range w h = ground arith

pub uint16-lt : (s : ℤ) → uint16 s < 65536
unfolding uint16
uint16-lt (pos n) = omega arith
uint16-lt (negsuc n) = omega arith

pub int16-uint16 : (s : ℤ) → InInt16 s → int16 (uint16 s) ≡ s
unfolding int16 uint16
int16-uint16 (pos n) h = ground arith
int16-uint16 (negsuc n) h = ground arith

pub uint16-int16 : (w : ℕ) → w < 65536 → uint16 (int16 w) ≡ w
unfolding int16 uint16
uint16-int16 w h = ground arith

pub length-put_samples : (ss : List ℤ) → length (put_samples ss) ≡ length ss * 2
unfolding put_samples
length-put_samples [] = omega arith
length-put_samples (s ∷ ss) = omega (arith, length-put_samples ss)

pub length-samples : (pcm : Bytes) → length (samples pcm) ≡ length pcm / 2
unfolding samples
length-samples [] = omega arith
length-samples (a ∷ []) = omega arith
length-samples (a ∷ (b ∷ rest)) = omega (arith, length-samples rest)

pub samples-put_samples : (ss : List ℤ) → All InInt16 ss → samples (put_samples ss) ≡ ss
unfolding samples put_samples
samples-put_samples [] h = refl
samples-put_samples (s ∷ ss) (a, b) =
    ground
      (arith, int16-uint16 s, uint16-lt s, samples-put_samples ss b, ap int16 (joined (uint16 s)))
  where
    joined : (w : ℕ) → w % 256 + w / 256 * 256 ≡ w
    joined w = omega arith

-- Writing back the samples of a buffer with an even number of bytes restores it.
pub put_samples-samples :
    (pcm : Bytes) → All IsByte pcm → length pcm % 2 ≡ 0 → put_samples (samples pcm) ≡ pcm
unfolding samples put_samples
put_samples-samples [] bytes even = refl
put_samples-samples (a ∷ []) bytes even = absurd (omega arith)
put_samples-samples (a ∷ (b ∷ rest)) (ha, (hb, hr)) even =
    rw (uint16-int16 (a + b * 256) (omega arith), put_samples-samples rest hr (omega arith))
      (ground arith)

pub samples-InInt16 : (pcm : Bytes) → All IsByte pcm → All InInt16 (samples pcm)
unfolding samples
samples-InInt16 [] h = tt
samples-InInt16 (a ∷ []) h = tt
samples-InInt16 (a ∷ (b ∷ rest)) (ha, (hb, hr)) =
    (int16_range (a + b * 256) (omega arith), samples-InInt16 rest hr)
