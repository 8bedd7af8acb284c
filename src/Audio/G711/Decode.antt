-- ===== src/Audio/G711/Decode.antt =====
-- The decode tables that `init` in gateway/codec.go builds, against the standard's values. A
-- statement about all 256 codes is checked code by code.
use Prim.Native.Nat.{bit_xor}
use voiceagent.Base.{
  ℕ, zero, suc, ◌+◌, ◌*◌, ◌^◌, ◌<◌, ◌≡◌, refl, ◌≢◌, Bool, true, ◌&&◌, not, arith, leb, ◌==◌,
  if◌then◌else◌, ℤ, pos, pos_part, neg_part, ◌+ℤ◌, Bool-cases, eq_of_parts, ap, map, Text, ◌⊎◌, inl,
  inr,
}
use voiceagent.Audio.Pcm.{Bytes, InInt16, put_samples}
use voiceagent.Audio.G711.{
  ulaw_to_linear, alaw_to_linear, with_sign, decode_g711_ulaw, decode_g711_alaw, transcode_frame,
  is_ulaw_name, is_alaw_name,
}
use voiceagent.Audio.G711.Reference.{exponent, ulaw_value, alaw_value}

-- The test passes on the codes below the number of them.
passes : (ℕ → Bool) → ℕ → Bool
passes test zero = true
passes test (suc codes) = passes test codes && test codes

passes_each :
    (test : ℕ → Bool) (code codes : ℕ) → code < codes → passes test codes ≡ true → test code ≡ true
unfolding passes
passes_each test code zero small h = absurd (omega (arith, small))
passes_each test code (suc codes) small h = ground (arith, passes_each test code codes)

eq_ℤ : ℤ → ℤ → Bool
eq_ℤ a b = pos_part a == pos_part b && neg_part a == neg_part b

eq_ℤ→eq : (a b : ℤ) → eq_ℤ a b ≡ true → a ≡ b
unfolding eq_ℤ
eq_ℤ→eq a b h = eq_of_parts a b (ground arith)

eq_ℤ_refl : (a : ℤ) → eq_ℤ a a ≡ true
unfolding eq_ℤ
eq_ℤ_refl a = ground arith

ulaw_table : passes (λ i. not (eq_ℤ (ulaw_to_linear i) (ulaw_value i))) 256 ≡ true
unfolding passes eq_ℤ ulaw_to_linear ulaw_value
ulaw_table = refl

-- No μ-law code is decoded to the value that the standard gives it.
pub ulaw_to_linear-ne-ulaw_value : (i : ℕ) → i < 256 → ulaw_to_linear i ≢ ulaw_value i
ulaw_to_linear-ne-ulaw_value i h e = ground (
  arith,
  passes_each _ i 256 h ulaw_table,
  eq_ℤ_refl (ulaw_value i),
  ap (λ v. eq_ℤ v (ulaw_value i)) e,
)

ulaw_pairs : passes (λ k. eq_ℤ (ulaw_to_linear (2 * k)) (ulaw_to_linear (2 * k + 1))) 128 ≡ true
unfolding passes eq_ℤ ulaw_to_linear
ulaw_pairs = refl

-- The lowest mantissa bit is lost: the codes 2k and 2k + 1 are decoded to the same sample.
pub ulaw_to_linear_pairs : (k : ℕ) → k < 128 → ulaw_to_linear (2 * k) ≡ ulaw_to_linear (2 * k + 1)
ulaw_to_linear_pairs k h = eq_ℤ→eq _ _ (passes_each _ k 128 h ulaw_pairs)

-- What the A-law table leaves out: half of a quantisation step in every segment but the first.
abbrev pub alaw_gap : ℕ → ℕ
alaw_gap i = let e = exponent (bit_xor i 0x55) in if e == 0 then 0 else 2 ^ (e + 2)

abbrev alaw_row : ℕ → Bool
alaw_row i =
    eq_ℤ (alaw_value i +ℤ alaw_to_linear i)
      (with_sign (not (leb 128 (bit_xor i 0x55))) (pos (alaw_gap i)))

alaw_table : passes alaw_row 256 ≡ true
unfolding passes eq_ℤ alaw_to_linear alaw_value ◌+ℤ◌ with_sign
alaw_table = refl

-- An A-law code is decoded to the standard's value with the opposite polarity, short of it by half
-- a step in every segment but the first, where it is exact: the two add up to that gap, with the
-- sign of the standard's value.
pub alaw_to_linear_gap :
    (i : ℕ)
    → i < 256
    → alaw_value i +ℤ alaw_to_linear i
      ≡ with_sign (not (leb 128 (bit_xor i 0x55))) (pos (alaw_gap i))
alaw_to_linear_gap i h = eq_ℤ→eq _ _ (passes_each alaw_row i 256 h alaw_table)

in_int16 : ℤ → Bool
in_int16 s = leb (pos_part s) 32767 && leb (neg_part s) 32768

in_int16→InInt16 : (s : ℤ) → in_int16 s ≡ true → InInt16 s
unfolding in_int16
in_int16→InInt16 s h = ground arith

table_range : passes (λ i. in_int16 (ulaw_to_linear i) && in_int16 (alaw_to_linear i)) 256 ≡ true
unfolding passes in_int16 ulaw_to_linear alaw_to_linear
table_range = refl

-- The table entries are 16-bit numbers, so no conversion in `init` wraps.
pub table-InInt16 : (i : ℕ) → i < 256 → InInt16 (ulaw_to_linear i) × InInt16 (alaw_to_linear i)
table-InInt16 i h = ground (
  arith,
  passes_each _ i 256 h table_range,
  in_int16→InInt16 (ulaw_to_linear i),
  in_int16→InInt16 (alaw_to_linear i),
)

-- Is one of the G.711 names that TranscodeFrame knows.
abbrev pub IsG711Name : Text → Type 0
IsG711Name codec = (is_ulaw_name codec ≡ true) ⊎ (is_alaw_name codec ≡ true)

-- The table that a G.711 name chooses.
abbrev pub table_of : Text → ℕ → ℤ
table_of codec = if is_ulaw_name codec then ulaw_to_linear else alaw_to_linear

pub transcode_frame-G711 :
    (frame : Bytes) (codec : Text)
    → IsG711Name codec
    → transcode_frame frame codec ≡ put_samples (map (table_of codec) frame)
unfolding transcode_frame decode_g711_ulaw decode_g711_alaw
transcode_frame-G711 frame codec h = elim (Bool-cases (is_ulaw_name codec)) [
  | inl u ↦ rw u
  | inr v ↦ rw v (ground arith)
]
