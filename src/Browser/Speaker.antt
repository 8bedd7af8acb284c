-- ===== src/Browser/Speaker.antt =====
-- What an agent hears of a caller in the browser, the loop of handleBridge in gateway/webrtc.go: frames
-- of the caller are cut into pieces of 20 ms, a supervisor's whisper is mixed in, and G.711 goes out.
pub mod Pieces
mod Tests
use voiceagent.Base.{
  ℕ, zero, suc, Bool, ℤ, ◌+ℤ◌, List, [], ◌∷◌, ◌++◌, map, if◌then◌else◌, leb, length, take, drop,
}
use voiceagent.Audio.Pcm.{Bytes, samples, put_samples}
use voiceagent.Audio.G711.{encode_g711_ulaw}
use voiceagent.Audio.Mixer.{saturate}
use voiceagent.Audio.Rtp.{resample_16k_to_8k}

-- 20 ms of 16 kHz.
abbrev pub frame_16k_size : ℕ
frame_16k_size = 640

-- What is not sent yet, and the whispers that wait in the supervisor's channel.
pub record Ear : Type 0 where
  pub frame_buf : Bytes
  pub whispers : List Bytes

-- The samples of a whisper over those of a piece, as far as both go.
unfoldable pub mix_over : List ℤ → List ℤ → List ℤ
mix_over [] ws = []
mix_over (c ∷ cs) [] = c ∷ cs
mix_over (c ∷ cs) (w ∷ ws) = saturate (c +ℤ w) ∷ mix_over cs ws

unfoldable pub mix_whisper : List Bytes → Bytes → Bytes
unfolding mix_over
mix_whisper [] chunk = chunk
mix_whisper (w ∷ ws) chunk = put_samples (mix_over (samples chunk) (samples w))

abbrev pub later_whispers : List Bytes → List Bytes
later_whispers [] = []
later_whispers (w ∷ ws) = ws

-- The loop over whole pieces, with fuel for its rounds; the pieces, mixed, and what is left.
unfoldable pub cut_frames : ℕ → Ear → Ear × List Bytes
unfolding mix_whisper
cut_frames zero e = (e, [])
cut_frames (suc fuel) e =
    let rest = cut_frames fuel (record {
      frame_buf = drop frame_16k_size e.frame_buf;
      whispers = later_whispers e.whispers;
    }) in
    if leb frame_16k_size (length e.frame_buf)
    then (rest.0, mix_whisper e.whispers (take frame_16k_size e.frame_buf) ∷ rest.1)
    else (e, [])

-- A frame of the caller, which is dropped on hold and in a conference.
pub record CallerFrame : Type 0 where
  pub pcm : Bytes
  pub held : Bool

unfoldable pub hear_frame : CallerFrame → Ear → Ear × List Bytes
unfolding cut_frames
hear_frame f e =
    let grown = record e { frame_buf = e.frame_buf ++ f.pcm } in
    if f.held then (e, []) else cut_frames (length grown.frame_buf) grown

unfoldable pub hear_all : List CallerFrame → Ear → Ear × List Bytes
hear_all [] e = (e, [])
hear_all (f ∷ fs) e =
    let (e', chunks) = hear_frame f e in let (e'', rest) = hear_all fs e' in (e'', chunks ++ rest)

-- What is written to the browser of a piece.
unfoldable pub to_packet : Bytes → Bytes
to_packet chunk = encode_g711_ulaw (resample_16k_to_8k chunk)

unfoldable pub packets : List CallerFrame → Ear → List Bytes
unfolding to_packet
packets fs e = map to_packet (hear_all fs e).1
