-- ===== src/Audio/Rtp/Receiving.antt =====
-- Which address the receive loop of gateway/rtplistener.go sends back to, and what it counts.
use voiceagent.Base.{◌≤◌, ◌<◌, ◌≡◌, refl, ap, ◌∙◌, List, [], ◌∷◌, Option, none, some, arith, Text}
use voiceagent.Audio.Rtp.{Packet, Receiver, receive, receive_all}

-- Once an audio packet was taken, and an address is known, no datagram changes where audio is sent.
receive_latched :
    (s : Receiver) (addr : Text) (d : Option Text × Option Packet)
    → 0 < s.frame_count
    → s.listener.remote_addr ≡ some addr
    → (s.frame_count ≤ (receive s d).0.frame_count) × ((receive s d).0.listener ≡ s.listener)
unfolding receive
receive_latched s addr (none, none) h e = ground arith
receive_latched s addr (none, some p) h e = ground arith
receive_latched s addr (some a, none) h e = ground arith
receive_latched s addr (some a, some p) h e = ground arith

-- Once a listener has an address and an audio packet was counted, datagrams of any sender and content
-- leave it as it is, its address
-- included, and the count of audio packets never falls.
pub receive_all_latched :
    (s : Receiver) (addr : Text) (ds : List (Option Text × Option Packet))
    → 0 < s.frame_count
    → s.listener.remote_addr ≡ some addr
    → (s.frame_count ≤ (receive_all s ds).frame_count) × ((receive_all s ds).listener ≡ s.listener)
unfolding receive_all
receive_all_latched s addr [] h e = (omega arith, refl)
receive_all_latched s addr (d ∷ ds) h e =
    let (grows, kept) = receive_latched s addr d h e in
    let (more, same_listener) =
      receive_all_latched (receive s d).0 addr ds (omega arith)
        (ap (λ l. l.remote_addr) kept ∙ e) in
    (omega arith, same_listener ∙ kept)
