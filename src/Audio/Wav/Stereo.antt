-- ===== src/Audio/Wav/Stereo.antt =====
-- The two channels of a recording: `interleaveStereo` of gateway/recording.go and its inverse.
use voiceagent.Base.{
  ℕ, zero, suc, max, ◌-◌, ◌*◌, ◌/◌, ◌≡◌, refl, ap, [], ◌∷◌, arith, length, take, replicate,
  length-append, length-replicate,
}
use voiceagent.Audio.Pcm.{Bytes}
use voiceagent.Audio.Wav.{pad, interleave, interleave_stereo}

-- The left and the right channel of 16-bit stereo.
abbrev pub left_of : Bytes → Bytes
left_of (a ∷ (b ∷ (c ∷ (d ∷ rest)))) = a ∷ b ∷ left_of rest
left_of _ = []

abbrev pub right_of : Bytes → Bytes
right_of (a ∷ (b ∷ (c ∷ (d ∷ rest)))) = c ∷ d ∷ right_of rest
right_of _ = []

length-pad : (n : ℕ) (b : Bytes) → length (pad n b) ≡ max n (length b)
unfolding pad
length-pad n b =
    omega (
      arith,
      length-append b (replicate (n - length b) 0),
      length-replicate {A = ℕ} (n - length b) 0,
    )

-- Whole samples of two channels of n bytes each.
interleave_parts :
    (n : ℕ) (l r : Bytes)
    → length l ≡ n
    → length r ≡ n
    → (left_of (interleave l r) ≡ take (n / 2 * 2) l)
      × (right_of (interleave l r) ≡ take (n / 2 * 2) r)
      × (length (interleave l r) ≡ n / 2 * 4)
unfolding interleave
interleave_parts zero [] [] hl hr = (refl, refl, refl)
interleave_parts zero [] (c ∷ rs) hl hr = absurd (omega arith)
interleave_parts zero (a ∷ ls) r hl hr = absurd (omega arith)
interleave_parts (suc zero) (a ∷ []) (c ∷ []) hl hr = (refl, refl, refl)
interleave_parts (suc zero) (a ∷ []) (c ∷ (d ∷ rs)) hl hr = absurd (omega arith)
interleave_parts (suc zero) (a ∷ (b ∷ ls)) r hl hr = absurd (omega arith)
interleave_parts (suc zero) [] r hl hr = absurd (omega arith)
interleave_parts (suc zero) (a ∷ []) [] hl hr = absurd (omega arith)
interleave_parts (suc (suc n)) (a ∷ (b ∷ ls)) (c ∷ (d ∷ rs)) hl hr =
    let (hleft, hright, hsize) = interleave_parts n ls rs (omega arith) (omega arith) in
    rw step (ap (λ t. a ∷ b ∷ t) hleft, ap (λ t. c ∷ d ∷ t) hright, omega arith)
  where
    step : suc (suc n) / 2 * 2 ≡ suc (suc (n / 2 * 2))
    step = omega arith
interleave_parts (suc (suc n)) (a ∷ (b ∷ ls)) [] hl hr = absurd (omega arith)
interleave_parts (suc (suc n)) (a ∷ (b ∷ ls)) (c ∷ []) hl hr = absurd (omega arith)
interleave_parts (suc (suc n)) [] r hl hr = absurd (omega arith)
interleave_parts (suc (suc n)) (a ∷ []) r hl hr = absurd (omega arith)

-- The stereo buffer holds both channels, the shorter one padded with silence: each channel read back
-- is the whole samples of that channel, and the size is four bytes for each of them.
pub interleave_stereo-parts :
    (l r : Bytes)
    → let n = max (length l) (length r) in
      (left_of (interleave_stereo l r) ≡ take (n / 2 * 2) (pad n l))
      × (right_of (interleave_stereo l r) ≡ take (n / 2 * 2) (pad n r))
      × (length (interleave_stereo l r) ≡ n / 2 * 4)
unfolding interleave_stereo
interleave_stereo-parts l r =
    let n = max (length l) (length r) in
    interleave_parts n (pad n l) (pad n r) (omega (arith, length-pad n l))
      (omega (arith, length-pad n r))
