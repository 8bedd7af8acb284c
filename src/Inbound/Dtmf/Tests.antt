-- ===== src/Inbound/Dtmf/Tests.antt =====
-- Keys of gateway/dtmf.go.
use voiceagent.Base.{ℕ, ◌≡◌, refl, true, List, [], ◌∷◌, ◌++◌, lit}
use voiceagent.Inbound.Dtmf.{
  DtmfEvent, KeyStep, key, tick, new_dtmf_collector, add_digit, digits_of, collect_all,
  dtmf_event_to_char, flush_tick, no_events, flush,
}
use voiceagent.Inbound.Dtmf.Collecting.{collect_all_keeps, joined, keys_of}

abbrev press : ℕ → ℕ → DtmfEvent
press code time = record { digit = dtmf_event_to_char code; duration = 100; time = time }

abbrev pin : List KeyStep
pin = key (press 4 10) ∷ key (press 2 20) ∷ tick 70 ∷ key (press 11 80) ∷ []

-- A sequence is handed on once the pause is longer than the timeout.
flushed : (collect_all pin (new_dtmf_collector 40 true)).1 ≡ lit "42" ∷ []
unfolding collect_all add_digit flush_tick no_events digits_of new_dtmf_collector dtmf_event_to_char
flushed = refl

-- Flush returns the digits and leaves nothing behind.
flush_twice : (flush (flush (add_digit (press 4 10) (new_dtmf_collector 40 true))).0).1 ≡ []
unfolding flush add_digit no_events digits_of new_dtmf_collector
flush_twice = refl

collect_all_keeps_example :
    joined (collect_all pin (new_dtmf_collector 40 true)).1
      ++ digits_of (collect_all pin (new_dtmf_collector 40 true)).0.buffer
    ≡ digits_of (new_dtmf_collector 40 true).buffer ++ keys_of pin
unfolding new_dtmf_collector
collect_all_keeps_example = collect_all_keeps pin (new_dtmf_collector 40 true) refl
