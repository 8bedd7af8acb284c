-- ===== src/Audio/G711/Encode.antt =====
-- The μ-law encoder `linearToUlaw` of gateway/codec.go against the standard's decoder.
use voiceagent.Base.{
  ℕ, zero, suc, min, ◌+◌, ◌-◌, ◌*◌, ◌/◌, ◌%◌, ◌^◌, ◌≤◌, ◌<◌, ◌≡◌, refl, ◌⊎◌, inl, inr, arith, leb,
  ℤ, pos, negsuc, pos_part, neg_part, ◌≤ℤ◌, ◌+ℤ◌, int_laws,
}
use voiceagent.Audio.G711.{find_exponent, pack_code, biased_magnitude, linear_to_ulaw, with_sign}
use voiceagent.Audio.G711.Reference.{exponent, mantissa, ulaw_value}

-- The exponent is the place of the highest bit from bit 7 up.
abbrev IsExponent : ℕ → ℕ → Type 0
IsExponent e w = (e < 8) × (2 ^ (e + 7) ≤ w) × (w < 2 ^ (e + 8))

find_exponent-IsExponent : (w : ℕ) → 128 ≤ w → w < 32768 → IsExponent (find_exponent 7 16384 w) w
unfolding find_exponent
find_exponent-IsExponent w lo hi = ground arith

-- The code packs the sign bit, the exponent and the four bits below the leading one.
code_fields :
    (e m sign : ℕ)
    → e < 8
    → m < 16
    → (sign ≡ 0) ⊎ (sign ≡ 128)
    → let b = 255 - (255 - (sign + e * 16 + m)) in
      (exponent b ≡ e) × (mantissa b ≡ m) × (leb 128 b ≡ leb 128 sign)
code_fields e m sign he hm hs = ground arith

-- A biased magnitude w is decoded, bias included, to the middle of the interval that holds it.
abbrev Middle : ℕ → ℕ → ℕ → Type 0
Middle e m w = ((m * 8 + 132) * 2 ^ e ≤ w + 2 ^ (e + 2)) × (w ≤ (m * 8 + 132) * 2 ^ e + 2 ^ (e + 2))

middle : (e w : ℕ) → IsExponent e w → Middle e (w / 2 ^ (e + 3) % 16) w
middle zero w h = omega arith
middle (suc zero) w h = omega arith
middle (suc (suc zero)) w h = omega arith
middle (suc (suc (suc zero))) w h = omega arith
middle (suc (suc (suc (suc zero)))) w h = omega arith
middle (suc (suc (suc (suc (suc zero))))) w h = omega arith
middle (suc (suc (suc (suc (suc (suc zero)))))) w h = omega arith
middle (suc (suc (suc (suc (suc (suc (suc zero))))))) w h = omega arith
middle (suc (suc (suc (suc (suc (suc (suc (suc e)))))))) w h = absurd (omega arith)

-- |s| cut off at the clipping level.
abbrev pub clipped_magnitude : ℤ → ℕ
clipped_magnitude s = min (pos_part s + neg_part s) 32635

abbrev pub clipped : ℤ → ℤ
clipped (pos n) = pos (clipped_magnitude (pos n))
clipped (negsuc n) = negsuc (clipped_magnitude (negsuc n) - 1)

-- The distance between s and the value of a code is at most half of the code's interval.
abbrev pub WithinHalfStep : ℤ → ℕ → Type 0
WithinHalfStep s code =
    let half = pos (2 ^ (exponent (255 - code) + 2)) in
    (clipped s ≤ℤ ulaw_value code +ℤ half) × (ulaw_value code ≤ℤ clipped s +ℤ half)

sign_bit : ℤ → ℕ
sign_bit (pos n) = 0
sign_bit (negsuc n) = 128

biased_magnitude_lem :
    (s : ℤ) → negsuc 32766 ≤ℤ s → s ≤ℤ pos 32767 → biased_magnitude s ≡ clipped_magnitude s + 132
unfolding biased_magnitude
biased_magnitude_lem (pos n) lo hi = ground arith
biased_magnitude_lem (negsuc n) lo hi = ground arith

linear_to_ulaw_lem :
    (s : ℤ)
    → negsuc 32766 ≤ℤ s
    → s ≤ℤ pos 32767
    → linear_to_ulaw s ≡ pack_code (sign_bit s) (clipped_magnitude s + 132)
unfolding linear_to_ulaw sign_bit
linear_to_ulaw_lem (pos n) lo hi = ground (arith, biased_magnitude_lem (pos n) lo hi)
linear_to_ulaw_lem (negsuc n) lo hi = ground (arith, biased_magnitude_lem (negsuc n) lo hi)

-- The value of a code by its fields.
value_of_fields :
    (e m sign : ℕ)
    → e < 8
    → m < 16
    → (sign ≡ 0) ⊎ (sign ≡ 128)
    → ulaw_value (255 - (sign + e * 16 + m))
      ≡ with_sign (leb 128 sign) (pos ((m * 8 + 132) * 2 ^ e - 132))
unfolding ulaw_value with_sign
value_of_fields e m sign he hm hs =
    let (fe, fm, fs) = code_fields e m sign he hm hs in rw (fe, fm, fs) (ground arith)

sign_bit_cases : (s : ℤ) → (sign_bit s ≡ 0) ⊎ (sign_bit s ≡ 128)
unfolding sign_bit
sign_bit_cases (pos n) = inl refl
sign_bit_cases (negsuc n) = inr refl

-- A code whose value is the middle of the interval of w lies within half a step.
within :
    (s : ℤ) (e m : ℕ)
    → Middle e m (clipped_magnitude s + 132)
    → let v = with_sign (leb 128 (sign_bit s)) (pos ((m * 8 + 132) * 2 ^ e - 132)) in
      (clipped s ≤ℤ v +ℤ pos (2 ^ (e + 2))) × (v ≤ℤ clipped s +ℤ pos (2 ^ (e + 2)))
unfolding with_sign sign_bit
within (pos n) e m h = omega int_laws
within (negsuc n) e m h = omega int_laws

-- Every 16-bit sample but -32768 is coded, after clipping at ±32635, by a code whose standard value
-- lies within half a quantisation step of it.
pub linear_to_ulaw-WithinHalfStep :
    (s : ℤ) → negsuc 32766 ≤ℤ s → s ≤ℤ pos 32767 → WithinHalfStep s (linear_to_ulaw s)
unfolding pack_code
linear_to_ulaw-WithinHalfStep s lo hi =
    rw
      (
        linear_to_ulaw_lem s lo hi,
        value_of_fields e m (sign_bit s) he.0 hm hs,
        (code_fields e m (sign_bit s) he.0 hm hs).0,
      )
      (within s e m (middle e w he))
  where
    w : ℕ
    w = clipped_magnitude s + 132

    e : ℕ
    e = find_exponent 7 16384 w

    m : ℕ
    m = w / 2 ^ (e + 3) % 16

    he : IsExponent e w
    he = find_exponent-IsExponent w (omega arith) (omega arith)

    hm : m < 16
    hm = omega arith

    hs : (sign_bit s ≡ 0) ⊎ (sign_bit s ≡ 128)
    hs = sign_bit_cases s
