-- ===== src/Audio/Mixer.antt =====
-- The conference mixer of gateway/conference.go: three participants, a tick of 20 ms, and for each
-- participant the sum of the other two. A channel is the list of frames that wait in it, oldest
-- first.
pub mod Mixing
pub mod Ticks
mod Tests
use voiceagent.Base.{
  ℕ, zero, suc, ◌+◌, ◌≡◌, Bool, true, false, List, [], ◌∷◌, ◌++◌, ltb, ◌==◌, if◌then◌else◌, ℤ, pos,
  negsuc, pos_part, neg_part, ◌+ℤ◌, ltb_ℤ, length, get_or, replicate,
}
use voiceagent.Audio.Pcm.{Bytes, samples, put_samples}

-- The constants `mixFrameBytes` and `mixChanBuf`; a frame has half as many samples as bytes.
abbrev pub mix_frame_bytes : ℕ
mix_frame_bytes = 640

abbrev pub mix_frame_samples : ℕ
mix_frame_samples = 320

abbrev pub mix_chan_buf : ℕ
mix_chan_buf = 50

abbrev pub silence : Bytes
silence = replicate mix_frame_bytes 0

-- The array `frames` of the tick: what caller, agent and third party said.
pub record Frames : Type 0 where
  pub caller : Bytes
  pub agent : Bytes
  pub third : Bytes

-- Sample s of a frame; a frame that is too short counts as silence.
abbrev pub sample_at : Bytes → ℕ → ℤ
sample_at frame s = get_or (samples frame) s (pos 0)

-- What frame i adds to the sum for participant `exclude`.
abbrev pub part : ℕ → ℕ → Bytes → ℕ → ℤ
part i exclude frame s = if i == exclude then pos 0 else sample_at frame s

unfoldable pub saturate : ℤ → ℤ
saturate sum =
    if ltb_ℤ (pos 32767) sum
    then pos 32767
    else if ltb_ℤ sum (negsuc 32767)
    then negsuc 32767
    else sum

unfoldable pub mix_sample : Frames → ℕ → ℕ → ℤ
mix_sample f exclude s =
    saturate (part 0 exclude f.caller s +ℤ part 1 exclude f.agent s +ℤ part 2 exclude f.third s)

-- The loop over the samples s, s + 1, … of which n are left.
unfoldable pub mix_from : Frames → ℕ → ℕ → ℕ → List ℤ
mix_from f exclude s zero = []
mix_from f exclude s (suc n) = mix_sample f exclude s ∷ mix_from f exclude (s + 1) n

unfoldable pub mix_excluding : Frames → ℕ → Bytes
mix_excluding f exclude = put_samples (mix_from f exclude 0 mix_frame_samples)

pub record Participant : Type 0 where
  pub pcm_in : List Bytes
  pub pcm_out : List Bytes
  pub active : Bool

pub record AudioMixer : Type 0 where
  pub caller : Participant
  pub agent : Participant
  pub third : Participant

abbrev pub idle : Bool → Participant
idle active = record { pcm_in = []; pcm_out = []; active = active }

unfoldable pub new_audio_mixer : AudioMixer
new_audio_mixer = record { caller = idle true; agent = idle true; third = idle false }

-- `select { case ch <- frame: default: }` on a channel of 50.
unfoldable pub offer : Bytes → List Bytes → List Bytes
offer frame ch = if ltb (length ch) mix_chan_buf then ch ++ frame ∷ [] else ch

abbrev pub oldest : List Bytes → Bytes
oldest [] = silence
oldest (f ∷ fs) = f

abbrev pub rest_of : List Bytes → List Bytes
rest_of [] = []
rest_of (f ∷ fs) = fs

-- What a participant says in this tick, and its channel after that.
unfoldable pub heard : Participant → Bytes
heard p = if p.active then oldest p.pcm_in else silence

unfoldable pub consumed : Participant → Participant
consumed p = if p.active then record p { pcm_in = rest_of p.pcm_in } else p

unfoldable pub deliver : Frames → ℕ → Participant → Participant
unfolding offer
deliver f i p = if p.active then record p { pcm_out = offer (mix_excluding f i) p.pcm_out } else p

unfoldable pub frames_of : AudioMixer → Frames
frames_of m = record { caller = heard m.caller; agent = heard m.agent; third = heard m.third }

-- One tick of `run`.
unfoldable pub tick : AudioMixer → AudioMixer
unfolding consumed deliver
tick m =
    let f = frames_of m in
    record {
      caller = deliver f 0 (consumed m.caller);
      agent = deliver f 1 (consumed m.agent);
      third = deliver f 2 (consumed m.third);
    }

-- The receive loops feed a participant without waiting.
unfoldable pub feed : Bytes → Participant → Participant
unfolding offer
feed frame p = record p { pcm_in = offer frame p.pcm_in }
