-- ===== src/Sip/Ports.antt =====
-- The ports for RTP that gateway/sipserver.go hands out.
pub mod Cycle
use voiceagent.Base.{ℕ, zero, suc, ◌+◌, Bool, ltb, if◌then◌else◌}

pub record PortPool : Type 0 where
  pub rtp_base : ℕ
  pub rtp_next : ℕ

-- The fields as NewSIPServer sets them.
unfoldable pub new_port_pool : PortPool
new_port_pool = record { rtp_base = 30000; rtp_next = 30000 }

unfoldable pub allocate_rtp_port : PortPool → PortPool × ℕ
allocate_rtp_port s =
    let next = s.rtp_next + 2 in
    (record s { rtp_next = if ltb (s.rtp_base + 100) next then s.rtp_base else next }, s.rtp_next)

-- The server after n calls, and the port that the next call gets.
unfoldable pub after_calls : ℕ → PortPool → PortPool
after_calls zero s = s
after_calls (suc n) s = (allocate_rtp_port (after_calls n s)).0

unfoldable pub port_of_call : ℕ → PortPool → ℕ
port_of_call n s = (allocate_rtp_port (after_calls n s)).1
