-- ===== src/Audio/Rtp/Sending.antt =====
-- The counters and the payload of the packets that gateway/rtplistener.go sends.
use voiceagent.Base.{
  ◌+◌, ◌*◌, ◌%◌, ◌^◌, ◌<◌, ◌≡◌, refl, ap, true, false, List, [], ◌∷◌, map, some, arith, ℤ, length,
  Text, All, ltb,
}
use voiceagent.Audio.Pcm.{
  Bytes, IsByte, InInt16, put_samples, samples-put_samples, length-put_samples,
}
use voiceagent.Audio.G711.{upsample, resample_g711_to_l16, encode_g711_ulaw, linear_to_ulaw}
use voiceagent.Audio.G711.Decode.{IsG711Name, table_of}
use voiceagent.Audio.G711.Decode.{transcode_frame-G711}
use voiceagent.Audio.G711.Resample.{decoded-InInt16, upsample-InInt16, length-upsample}
use voiceagent.Audio.Rtp.{
  RtpListener, Sent, handed, decimate, resample_16k_to_8k, send_pcm, next_packet,
}

-- The listener after a list of frames.
pub send_all : RtpListener → List Bytes → RtpListener
send_all r [] = r
send_all r (f ∷ fs) = send_all (send_pcm r f).0 fs

-- A listener that can send.
abbrev pub IsReady : RtpListener → Type 0
IsReady r = ((addr : Text) × (r.remote_addr ≡ some addr)) × (r.conn ≡ true)

send_pcm_ready :
    (r : RtpListener) (f : Bytes)
    → IsReady r
    → send_pcm r f ≡ next_packet r 160 (encode_g711_ulaw (resample_16k_to_8k f))
unfolding send_pcm
send_pcm_ready r f ((addr, a), c) = rw (a, c)

send_all_ready :
    (r : RtpListener) (f : Bytes) (fs : List Bytes)
    → IsReady r
    → send_all r (f ∷ fs)
      ≡ send_all (next_packet r 160 (encode_g711_ulaw (resample_16k_to_8k f))).0 fs
unfolding send_all
send_all_ready r f fs h = ap (λ (p : RtpListener × Sent). send_all p.0 fs) (send_pcm_ready r f h)

-- A ready listener that sends n frames counts n packets modulo 2^16 and 160 samples for each modulo
-- 2^32, whatever the frames hold; its address, connection and source stay.
pub send_all_counters :
    (r : RtpListener) (fs : List Bytes)
    → IsReady r
    → r.send_seq < 2 ^ 16
    → r.send_ts < 2 ^ 32
    → ((send_all r fs).send_seq ≡ (r.send_seq + length fs) % 2 ^ 16)
      × ((send_all r fs).send_ts ≡ (r.send_ts + 160 * length fs) % 2 ^ 32)
      × IsReady (send_all r fs)
      × ((send_all r fs).send_ssrc ≡ r.send_ssrc)
unfolding send_all next_packet
send_all_counters r [] h seq ts = (omega arith, omega arith, h, refl)
send_all_counters r (f ∷ fs) h seq ts =
    let r' = (next_packet r 160 (encode_g711_ulaw (resample_16k_to_8k f))).0 in
    let (seqs, stamps, ready, source) = send_all_counters r' fs h (omega arith) (omega arith) in
    rw (send_all_ready r f fs h) (omega (arith, seqs), omega (arith, stamps), ready, source)

decimate-upsample : (ss : List ℤ) → decimate (upsample ss) ≡ ss
unfolding decimate upsample
decimate-upsample [] = refl
decimate-upsample (s ∷ ss) = ap (◌∷◌ s) (decimate-upsample ss)

down_again :
    (ss : List ℤ) → All InInt16 ss → resample_16k_to_8k (put_samples (upsample ss)) ≡ put_samples ss
unfolding resample_16k_to_8k
down_again [] h = unfold put_samples upsample in refl
down_again (s ∷ ss) h = rw (
  long,
  samples-put_samples (upsample (s ∷ ss)) (upsample-InInt16 (s ∷ ss) h),
  decimate-upsample (s ∷ ss),
)
  where
    long : ltb (length (put_samples (upsample (s ∷ ss)))) 2 ≡ false
    long = ground (arith, length-put_samples (upsample (s ∷ ss)), length-upsample (s ∷ ss))

-- Going up to 16 kHz and back down to 8 kHz gives the decoded samples.
resample_there_and_back :
    (g711 : Bytes) (codec : Text)
    → IsG711Name codec
    → All IsByte g711
    → resample_16k_to_8k (resample_g711_to_l16 g711 codec) ≡ put_samples (map (table_of codec) g711)
unfolding resample_g711_to_l16
resample_there_and_back g711 codec h bytes =
    let range = decoded-InInt16 codec g711 bytes in
    rw (transcode_frame-G711 g711 codec h, samples-put_samples (map (table_of codec) g711) range)
      (down_again (map (table_of codec) g711) range)

-- Audio that is passed on: the packet sent for a received frame of G.711 holds each of its codes,
-- decoded and encoded anew, in the same order and number.
pub send_pcm_forwards :
    (r : RtpListener) (g711 : Bytes) (codec : Text)
    → IsReady r
    → IsG711Name codec
    → All IsByte g711
    → (send_pcm r (resample_g711_to_l16 g711 codec)).1
      ≡ handed (record {
        payload_type = 0;
        sequence_number = (r.send_seq + 1) % 2 ^ 16;
        timestamp = (r.send_ts + 160) % 2 ^ 32;
        ssrc = r.send_ssrc;
        payload = map linear_to_ulaw (map (table_of codec) g711);
      })
unfolding next_packet encode_g711_ulaw
send_pcm_forwards r g711 codec ready h bytes = rw (
  send_pcm_ready r (resample_g711_to_l16 g711 codec) ready,
  resample_there_and_back g711 codec h bytes,
  samples-put_samples (map (table_of codec) g711) (decoded-InInt16 codec g711 bytes),
)
