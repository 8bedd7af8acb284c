-- ===== src/Calls/Supervisor/Sound.antt =====
-- The sound of gateway/supervisor.go and that of the conference mixer of gateway/conference.go.
use voiceagent.Base.{ℕ, zero, suc, ◌+◌, ◌≡◌, refl, ap, ◌∙◌, true, ◌∷◌, ℤ, pos, ◌+ℤ◌, int_laws}
use voiceagent.Audio.Pcm.{put_samples}
use voiceagent.Audio.Mixer.{
  Frames, AudioMixer, mix_frame_samples, saturate, mix_sample, mix_from, mix_excluding, heard,
  frames_of, oldest,
}
use voiceagent.Calls.Supervisor.{supervisor_sample, supervisor_from, supervisor_tick}

zeros : (a b : ℤ) → pos 0 +ℤ a +ℤ b ≡ a +ℤ b +ℤ pos 0
zeros a b = omega int_laws

module _ (f : Frames) where
  supervisor_from-mix_from : (i n : ℕ) → supervisor_from f.caller f.agent i n ≡ mix_from f 2 i n
  unfolding supervisor_from mix_from supervisor_sample mix_sample
  supervisor_from-mix_from i zero = refl
  supervisor_from-mix_from i (suc n) =
      ap (λ s. saturate s ∷ supervisor_from f.caller f.agent (i + 1) n) (zeros _ _)
      ∙ ap (λ rest. mix_sample f 2 i ∷ rest) (supervisor_from-mix_from (i + 1) n)

-- What a supervisor hears of a call is what the third party of a conference would hear whose caller and
-- agent speak what waits in the supervisor's taps, whatever the third party itself says.
pub supervisor_tick-mix_excluding :
    (m : AudioMixer)
    → m.caller.active ≡ true
    → m.agent.active ≡ true
    → (supervisor_tick m.caller.pcm_in m.agent.pcm_in).0 ≡ mix_excluding (frames_of m) 2
unfolding supervisor_tick mix_excluding frames_of heard
supervisor_tick-mix_excluding m c a =
    rw (c, a)
      (ap put_samples (
        supervisor_from-mix_from
          (record {
            caller = oldest m.caller.pcm_in;
            agent = oldest m.agent.pcm_in;
            third = heard m.third;
          })
          0 mix_frame_samples))
