-- ===== src/Inbound/Dtmf/Events.antt =====
-- What gateway/dtmf.go reads from an RFC 2833 payload.
use voiceagent.Base.{
  ℕ, ◌+◌, ◌/◌, ◌%◌, ◌<◌, ◌≡◌, Bool, true, false, List, [], ◌∷◌, ◌++◌, none, some, if◌then◌else◌,
  arith, is_empty,
}
use voiceagent.Inbound.Dtmf.{dtmf_event_to_char, parse_event, parse_rfc2833}

-- The payload of an event: its code, the E and R bits, the volume and the duration.
abbrev pub event_payload : ℕ → Bool → Bool → ℕ → ℕ → List ℕ
event_payload event ended reserved volume duration =
    event
    ∷ ((if ended then 128 else 0) + (if reserved then 64 else 0) + volume)
    ∷ (duration / 256)
    ∷ (duration % 256)
    ∷ []

-- Two events below 16 that show the same character are one event.
pub dtmf_event_to_char_injective :
    (a b : ℕ) → a < 16 → b < 16 → dtmf_event_to_char a ≡ dtmf_event_to_char b → a ≡ b
unfolding dtmf_event_to_char
dtmf_event_to_char_injective a b h k e = ground arith

dtmf_char_shown : (event : ℕ) → event < 16 → is_empty (dtmf_event_to_char event) ≡ false
unfolding dtmf_event_to_char
dtmf_char_shown event h = ground arith

-- A payload that ends an event below 16, with a volume below 64 and a duration below 65536, is read
-- as the event's character with the duration in milliseconds, an eighth of it, whatever follows the
-- four bytes; one that does not end its event is passed over.
pub parse_rfc2833-event_payload :
    (now event : ℕ) (ended reserved : Bool) (volume duration : ℕ) (more : List ℕ)
    → event < 16
    → volume < 64
    → duration < 65536
    → parse_rfc2833 now (event_payload event ended reserved volume duration ++ more) ≡ (
        if ended
        then some (record { digit = dtmf_event_to_char event; duration = duration / 8; time = now })
        else none)
unfolding parse_rfc2833 parse_event
parse_rfc2833-event_payload now event true reserved volume duration more h k l =
    ground (arith, dtmf_char_shown event h)
parse_rfc2833-event_payload now event false reserved volume duration more h k l = ground arith
