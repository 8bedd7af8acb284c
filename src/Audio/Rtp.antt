-- ===== src/Audio/Rtp.antt =====
-- The RTP leg of gateway/rtplistener.go: the counters of the sender, the receive loop, and the step
-- from 16 kHz to 8 kHz (`resample` of gateway/main.go) that the sender makes. Packets are parsed and
-- written by pion/rtp and the socket: here a packet is its fields, and a datagram comes parsed, as
-- `none` where `Unmarshal` fails.
pub mod Sending
pub mod Receiving
use voiceagent.Base.{
  ℕ, suc, ◌+◌, ◌%◌, ◌^◌, Bool, true, false, ◌&&◌, ◌||◌, not, List, [], ◌∷◌, Option, none, some, ltb,
  ◌==◌, if◌then◌else◌, ℤ, length, Text, lit, same, is_empty,
}
use voiceagent.Audio.Pcm.{Bytes, samples, put_samples}
use voiceagent.Audio.G711.{encode_g711_ulaw, payload_type_for_codec, resample_g711_to_l16}

-- One sample of two: sample 2i at the place i, where the second of the pair is there too.
unfoldable pub decimate : List ℤ → List ℤ
decimate [] = []
decimate (s ∷ []) = []
decimate (s ∷ (t ∷ rest)) = s ∷ decimate rest

-- `resample(pcm, 16000, 8000)`. At these two rates the ratio is 2.0, the position 2i is a whole
-- number, its fraction is 0.0 and the weighted sum is the sample itself: no float is rounded.
unfoldable pub resample_16k_to_8k : Bytes → Bytes
resample_16k_to_8k pcm = if ltb (length pcm) 2 then pcm else put_samples (decimate (samples pcm))

-- The address is its printed form, host and port.
pub record RtpListener : Type 0 where
  pub codec : Text
  pub remote_addr : Option Text
  pub conn : Bool
  pub send_seq : ℕ  -- uint16
  pub send_ts : ℕ  -- uint32
  pub send_ssrc : ℕ  -- uint32

pub record Packet : Type 0 where
  pub payload_type : ℕ
  pub sequence_number : ℕ
  pub timestamp : ℕ
  pub ssrc : ℕ
  pub payload : Bytes

pub data SendError : Type 0 where
  no_remote_address connection_closed not_ready : SendError

-- Either refused, or handed to `Marshal` and the socket.
pub data Sent : Type 0 where
  refused : SendError → Sent
  handed : Packet → Sent

-- Between sendMu.Lock and sendMu.Unlock: both counters wrap.
unfoldable pub next_packet : RtpListener → ℕ → Bytes → RtpListener × Sent
next_packet r samples_sent payload =
    let seq = (r.send_seq + 1) % 2 ^ 16 in
    let ts = (r.send_ts + samples_sent) % 2 ^ 32 in
    (
      record r { send_seq = seq; send_ts = ts },
      handed (record {
        payload_type = 0;
        sequence_number = seq;
        timestamp = ts;
        ssrc = r.send_ssrc;
        payload = payload;
      }),
    )

abbrev is_none {ℓ} : {A : Type ℓ} → Option A → Bool
is_none none = true
is_none (some a) = false

unfoldable pub send_pcm : RtpListener → Bytes → RtpListener × Sent
unfolding next_packet
send_pcm r pcm16k =
    if is_none r.remote_addr
    then (r, refused no_remote_address)
    else if not r.conn
    then (r, refused connection_closed)
    else next_packet r 160 (encode_g711_ulaw (resample_16k_to_8k pcm16k))

unfoldable pub send_g711 : RtpListener → Bytes → RtpListener × Sent
unfolding next_packet
send_g711 r payload =
    if is_none r.remote_addr || not r.conn
    then (r, refused not_ready)
    else next_packet r (length payload % 2 ^ 32) payload

-- The receive loop: the listener and the count of audio packets.
pub record Receiver : Type 0 where
  pub listener : RtpListener
  pub frame_count : ℕ

-- `sender != nil && (r.remoteAddr == nil || frameCount == 0)`
unfoldable pub learn_address : Option Text → Receiver → Receiver
learn_address none s = s
learn_address (some addr) s =
    if is_none s.listener.remote_addr || s.frame_count == 0
    then record s { listener = record (s.listener) { remote_addr = some addr } }
    else s

-- What one datagram does, and the PCM that it yields for the recogniser and the taps.
unfoldable pub decode_packet : Option Packet → Receiver → Receiver × Option Bytes
decode_packet none s = (s, none)
decode_packet (some pkt) s =
    if not (pkt.payload_type == payload_type_for_codec s.listener.codec)
    then (s, none)
    else if is_empty pkt.payload
    then (s, none)
    else (
      record s { frame_count = s.frame_count + 1 },
      some (resample_g711_to_l16 pkt.payload s.listener.codec),
    )

unfoldable pub receive : Receiver → Option Text × Option Packet → Receiver × Option Bytes
unfolding learn_address decode_packet
receive s (sender, pkt) = decode_packet pkt (learn_address sender s)

unfoldable pub receive_all : Receiver → List (Option Text × Option Packet) → Receiver
receive_all s [] = s
receive_all s (d ∷ ds) = receive_all (receive s d).0 ds
