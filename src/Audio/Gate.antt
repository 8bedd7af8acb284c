-- ===== src/Audio/Gate.antt =====
-- The noise gate and the comfort noise of gateway/agc.go, and the pipeline that runs the gain
-- control before them. The gain control and the RMS energy are computed with floats in the source:
-- here they are parameters.
pub mod Laws
use voiceagent.Base.{
  ℕ, zero, suc, ◌+◌, ◌-◌, ◌*◌, ◌/◌, ◌%◌, ◌^◌, Bool, true, false, List, [], ◌∷◌, ◌++◌, ltb, ◌==◌,
  if◌then◌else◌, ℤ, pos, ◌-ℤ◌, length, replicate,
}
use voiceagent.Audio.Pcm.{Bytes, put_samples}

pub record NoiseGate : Type 0 where
  pub hold_frames : ℕ
  pub hold_count : ℕ
  pub is_open : Bool

unfoldable pub new_noise_gate : NoiseGate
new_noise_gate = record { hold_frames = 5; hold_count = 0; is_open = false }

-- `seed = seed*1103515245 + 12345` on a uint32.
unfoldable pub next_seed : ℕ → ℕ
next_seed seed = (seed * 1103515245 + 12345) % 2 ^ 32

-- `int16((seed >> 16) & 0x1F) - 16`
unfoldable pub noise_sample : ℕ → ℤ
unfolding ◌-ℤ◌
noise_sample seed = pos (seed / 2 ^ 16 % 32) -ℤ pos 16

unfoldable pub noise_samples : ℕ → ℕ → List ℤ
noise_samples seed zero = []
noise_samples seed (suc n) = noise_sample (next_seed seed) ∷ noise_samples (next_seed seed) n

-- An odd last byte stays 0.
unfoldable pub generate_comfort_noise : ℕ → Bytes
generate_comfort_noise len = put_samples (noise_samples 42 (len / 2)) ++ replicate (len % 2) 0

module _ (is_loud : Bytes → Bool) where
  -- `is_loud pcm` is `rmsEnergy(pcm) > ng.threshold`.
  unfoldable pub process : NoiseGate → Bytes → NoiseGate × Bytes × Bool
  process ng pcm =
      if is_loud pcm
      then (record ng { is_open = true; hold_count = ng.hold_frames }, pcm, true)
      else if ltb 0 ng.hold_count
      then (record ng { hold_count = ng.hold_count - 1 }, pcm, true)
      else (record ng { is_open = false }, generate_comfort_noise (length pcm), false)

  -- A stream of frames: what goes on to the recogniser, and whether it counts as speech.
  unfoldable pub process_all : NoiseGate → List Bytes → List (Bytes × Bool)
  process_all ng [] = []
  process_all ng (f ∷ fs) =
      let (ng', out, speech) = process ng f in (out, speech) ∷ process_all ng' fs

  pub record TelecomAudioPipeline {ℓ} (Gain : Type ℓ) : Type ℓ where
    pub agc : Gain
    pub noise_gate : NoiseGate
    pub enabled : Bool

  module _ {Gain : Type 0} (agc_process : Gain → Bytes → Gain × Bytes) where
    unfoldable pub pipeline_process :
        TelecomAudioPipeline Gain → Bytes → TelecomAudioPipeline Gain × Bytes × Bool
    pipeline_process tap pcm =
        if tap.enabled
        then (let (agc', normalized) = agc_process tap.agc pcm in
            let (gate', gated, is_speech) = process tap.noise_gate normalized in
            (record tap { agc = agc'; noise_gate = gate' }, gated, is_speech))
        else (tap, pcm, true)
