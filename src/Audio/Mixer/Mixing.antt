-- ===== src/Audio/Mixer/Mixing.antt =====
-- What `mixExcluding` of gateway/conference.go puts in a frame.
use voiceagent.Base.{
  ℕ, zero, suc, ◌+◌, ◌<◌, ◌≡◌, refl, ap, ◌∙◌, arith, ℤ, pos, ◌+ℤ◌, length, get_or, All, int_laws,
}
use voiceagent.Audio.Pcm.{Bytes, InInt16, samples, samples-put_samples, length-put_samples}
use voiceagent.Audio.Mixer.{
  Frames, mix_frame_bytes, mix_frame_samples, sample_at, saturate, mix_sample, mix_from,
  mix_excluding,
}

saturate-InInt16 : (s : ℤ) → InInt16 (saturate s)
unfolding saturate
saturate-InInt16 s = ground arith

mix_from-InInt16 : (f : Frames) (e s n : ℕ) → All InInt16 (mix_from f e s n)
unfolding mix_from mix_sample
mix_from-InInt16 f e s zero = tt
mix_from-InInt16 f e s (suc n) = (saturate-InInt16 _, mix_from-InInt16 f e (s + 1) n)

length-mix_from : (f : Frames) (e s n : ℕ) → length (mix_from f e s n) ≡ n
unfolding mix_from
length-mix_from f e s zero = refl
length-mix_from f e s (suc n) = ap suc (length-mix_from f e (s + 1) n)

get_or-mix_from :
    (f : Frames) (e s n k : ℕ)
    → k < n
    → get_or (mix_from f e s n) k (pos 0) ≡ mix_sample f e (s + k)
unfolding mix_from
get_or-mix_from f e s zero k h = elim h [ ]
get_or-mix_from f e s (suc n) zero h = ap (mix_sample f e) (omega arith)
get_or-mix_from f e s (suc n) (suc k) h =
    get_or-mix_from f e (s + 1) n k (omega arith) ∙ ap (mix_sample f e) (omega arith)

samples-mix_excluding :
    (f : Frames) (e : ℕ) → samples (mix_excluding f e) ≡ mix_from f e 0 mix_frame_samples
unfolding mix_excluding
samples-mix_excluding f e = samples-put_samples _ (mix_from-InInt16 f e 0 mix_frame_samples)

-- The two that participant `exclude` hears.
abbrev pub others : Frames → ℕ → Bytes × Bytes
others f zero = (f.agent, f.third)
others f (suc zero) = (f.caller, f.third)
others f (suc (suc n)) = (f.caller, f.agent)

+ℤ_zero_left : (a b : ℤ) → pos 0 +ℤ a +ℤ b ≡ a +ℤ b
+ℤ_zero_left a b = omega int_laws

+ℤ_zero_middle : (a b : ℤ) → a +ℤ pos 0 +ℤ b ≡ a +ℤ b
+ℤ_zero_middle a b = omega int_laws

+ℤ_zero_right : (a b : ℤ) → a +ℤ b +ℤ pos 0 ≡ a +ℤ b
+ℤ_zero_right a b = omega int_laws

pub mix_sample-others :
    (f : Frames) (e s : ℕ)
    → e < 3
    → mix_sample f e s ≡ saturate (sample_at (others f e).0 s +ℤ sample_at (others f e).1 s)
unfolding mix_sample
mix_sample-others f zero s h = ap saturate (+ℤ_zero_left _ _)
mix_sample-others f (suc zero) s h = ap saturate (+ℤ_zero_middle _ _)
mix_sample-others f (suc (suc zero)) s h = ap saturate (+ℤ_zero_right _ _)
mix_sample-others f (suc (suc (suc e))) s h = absurd (omega arith)

-- A mixed frame has 640 bytes, and each of its 320 samples is the sum of the two other
-- participants' samples, cut off to 16 bits; a sample that a frame is too short for counts as 0.
pub mix_excluding-others :
    (f : Frames) (e s : ℕ)
    → e < 3
    → s < mix_frame_samples
    → (length (mix_excluding f e) ≡ mix_frame_bytes)
      × (sample_at (mix_excluding f e) s
          ≡ saturate (sample_at (others f e).0 s +ℤ sample_at (others f e).1 s))
      × InInt16 (sample_at (mix_excluding f e) s)
mix_excluding-others f e s he hs = (
  sizes,
  rw value (mix_sample-others f e s he),
  rw value (rw (mix_sample-others f e s he) (saturate-InInt16 _)),
)
  where
    value : sample_at (mix_excluding f e) s ≡ mix_sample f e s
    value =
        rw (samples-mix_excluding f e)
          (get_or-mix_from f e 0 mix_frame_samples s hs ∙ ap (mix_sample f e) (omega arith))

    sizes : length (mix_excluding f e) ≡ mix_frame_bytes
    sizes =
        unfold mix_excluding in
        omega (
          arith,
          length-put_samples (mix_from f e 0 mix_frame_samples),
          length-mix_from f e 0 mix_frame_samples,
        )
