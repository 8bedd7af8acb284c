-- ===== src/Audio/Gate/Laws.antt =====
-- The hold time of the noise gate of gateway/agc.go, and the range of the comfort noise.
use voiceagent.Base.{
  ℕ, zero, suc, ◌/◌, ◌%◌, ◌≡◌, refl, ap, Bool, true, false, List, [], ◌∷◌, arith, ℤ, pos, negsuc,
  ◌≤ℤ◌, ◌-ℤ◌, length, replicate, All, length-append, length-replicate,
}
use voiceagent.Audio.Pcm.{Bytes, put_samples, length-put_samples}
use voiceagent.Audio.Gate.{
  NoiseGate, noise_sample, noise_samples, next_seed, generate_comfort_noise, process, process_all,
}

-- A sample of at most 16 to either side of 0.
abbrev pub IsFaint : ℤ → Type 0
IsFaint s = (negsuc 15 ≤ℤ s) × (s ≤ℤ pos 15)

noise_sample-IsFaint : (seed : ℕ) → IsFaint (noise_sample seed)
unfolding noise_sample ◌-ℤ◌
noise_sample-IsFaint seed = ground arith

pub noise_samples-IsFaint : (seed n : ℕ) → All IsFaint (noise_samples seed n)
unfolding noise_samples
noise_samples-IsFaint seed zero = tt
noise_samples-IsFaint seed (suc n) =
    (noise_sample-IsFaint (next_seed seed), noise_samples-IsFaint (next_seed seed) n)

length-noise_samples : (seed n : ℕ) → length (noise_samples seed n) ≡ n
unfolding noise_samples
length-noise_samples seed zero = refl
length-noise_samples seed (suc n) = ap suc (length-noise_samples (next_seed seed) n)

pub length-generate_comfort_noise : (n : ℕ) → length (generate_comfort_noise n) ≡ n
unfolding generate_comfort_noise
length-generate_comfort_noise n = omega (
  arith,
  length-append (put_samples (noise_samples 42 (n / 2))) (replicate (n % 2) 0),
  length-put_samples (noise_samples 42 (n / 2)),
  length-noise_samples 42 (n / 2),
  length-replicate {A = ℕ} (n % 2) 0,
)

module _ (is_loud : Bytes → Bool) where
  abbrev pub IsQuiet : Bytes → Type 0
  IsQuiet f = is_loud f ≡ false

  -- What a gate with `hold` frames left makes of quiet frames: that many pass, the rest is noise.
  abbrev pub held : ℕ → List Bytes → List (Bytes × Bool)
  held hold [] = []
  held zero (f ∷ fs) = (generate_comfort_noise (length f), false) ∷ held zero fs
  held (suc hold) (f ∷ fs) = (f, true) ∷ held hold fs

  process_spent :
      (ng : NoiseGate) (f : Bytes)
      → IsQuiet f
      → ng.hold_count ≡ 0
      → process is_loud ng f
        ≡ (record ng { is_open = false }, generate_comfort_noise (length f), false)
  unfolding process
  process_spent ng f q e = ground arith

  process_held :
      (ng : NoiseGate) (f : Bytes) (k : ℕ)
      → IsQuiet f
      → ng.hold_count ≡ suc k
      → process is_loud ng f ≡ (record ng { hold_count = k }, f, true)
  unfolding process
  process_held ng f k q e = ground arith

  process_loud :
      (ng : NoiseGate) (f : Bytes)
      → is_loud f ≡ true
      → process is_loud ng f ≡ (record ng { is_open = true; hold_count = ng.hold_frames }, f, true)
  unfolding process
  process_loud ng f l = rw l

  process_quiet :
      (k : ℕ) (ng : NoiseGate) (fs : List Bytes)
      → ng.hold_count ≡ k
      → All IsQuiet fs
      → process_all is_loud ng fs ≡ held k fs
  unfolding process_all
  process_quiet k ng [] e h = refl
  process_quiet zero ng (f ∷ fs) e (q, h) =
      rw (process_spent ng f q e)
        (ap (◌∷◌ (generate_comfort_noise (length f), false)) (process_quiet zero _ fs e h))
  process_quiet (suc k) ng (f ∷ fs) e (q, h) =
      rw (process_held ng f k q e) (ap (◌∷◌ (f, true)) (process_quiet k _ fs refl h))

  -- A loud frame passes and opens the gate; of the quiet frames after it exactly `hold_frames` pass,
  -- and each later one is replaced by comfort noise of its own length.
  pub process_all-loud :
      (ng : NoiseGate) (f : Bytes) (fs : List Bytes)
      → is_loud f ≡ true
      → All IsQuiet fs
      → process_all is_loud ng (f ∷ fs) ≡ (f, true) ∷ held ng.hold_frames fs
  unfolding process_all
  process_all-loud ng f fs l q =
      rw (process_loud ng f l) (ap (◌∷◌ (f, true)) (process_quiet ng.hold_frames _ fs refl q))
