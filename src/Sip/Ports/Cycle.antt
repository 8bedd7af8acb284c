-- ===== src/Sip/Ports/Cycle.antt =====
-- The cycle of the ports of gateway/sipserver.go.
use voiceagent.Base.{ℕ, zero, suc, ◌+◌, ◌*◌, ◌%◌, ◌≡◌, refl, arith}
use voiceagent.Sip.Ports.{new_port_pool, allocate_rtp_port, after_calls, port_of_call}

after_calls_next :
    (n : ℕ)
    → ((after_calls n new_port_pool).rtp_next ≡ 30000 + 2 * (n % 51))
      × ((after_calls n new_port_pool).rtp_base ≡ 30000)
unfolding after_calls allocate_rtp_port new_port_pool
after_calls_next zero = (omega arith, refl)
after_calls_next (suc n) = ground (arith, after_calls_next n)

-- The n-th call of a server, counted from 0, gets the port 30000 + 2 · (n mod 51): an even port from
-- 30000 to 30100, the same for two calls exactly when 51 divides how far apart they are.
pub port_of_call-cycle : (n : ℕ) → port_of_call n new_port_pool ≡ 30000 + 2 * (n % 51)
unfolding port_of_call allocate_rtp_port
port_of_call-cycle n = (after_calls_next n).0
