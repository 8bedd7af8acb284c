-- ===== src/Inbound/Ivr/Deaf.antt =====
-- collectDTMF of gateway/ivr.go makes a collector that nothing adds a digit to: the RTP listener never
-- learns of it.
use voiceagent.Base.{ℕ, ◌≡◌, refl, ap, Bool, true, false, List, [], ◌∷◌, arith, Text}
use voiceagent.Inbound.Dtmf.{
  KeyStep, tick, DtmfCollector, flush_tick, no_events, new_dtmf_collector, collect_all,
}
use voiceagent.Inbound.Ivr.{collect_dtmf, first_digit}

abbrev pub ticks : List ℕ → List KeyStep
ticks [] = []
ticks (t ∷ ts) = tick t ∷ ticks ts

collect_all-ticks :
    (times : List ℕ) (dc : DtmfCollector)
    → no_events dc.buffer ≡ true
    → collect_all (ticks times) dc ≡ (dc, [])
unfolding collect_all flush_tick no_events
collect_all-ticks [] dc h = refl
collect_all-ticks (t ∷ times) dc h = ground (arith, h, collect_all-ticks times dc h)

-- With no key added to its collector, collectDTMF hears nothing, whatever the ticks of the loop.
pub collect_dtmf-ticks :
    (listening : Bool) (timeout : ℕ) (times : List ℕ)
    → collect_dtmf listening timeout (ticks times) ≡ []
unfolding collect_dtmf new_dtmf_collector no_events
collect_dtmf-ticks true timeout times =
    ap (λ (r : DtmfCollector × List Text). first_digit r.1)
      (collect_all-ticks times (new_dtmf_collector timeout true) refl)
collect_dtmf-ticks false timeout times = refl
