-- ===== src/Inbound/Dtmf.antt =====
-- Key presses: the RFC 2833 events and the collector of gateway/dtmf.go. A byte is a number below 256,
-- a time a number of nanoseconds.
pub mod Events
pub mod Collecting
mod Tests
use voiceagent.Base.{
  ℕ, ◌+◌, ◌-◌, ◌*◌, ◌/◌, ◌%◌, Bool, true, false, ◌&&◌, not, List, [], ◌∷◌, ◌++◌, Option, none, some,
  if◌then◌else◌, ltb, leb, ◌==◌, Text, is_empty,
}

pub record DtmfEvent : Type 0 where
  pub digit : Text
  pub duration : ℕ
  pub time : ℕ

-- The characters * # A B C D follow the ten digits.
unfoldable pub dtmf_event_to_char : ℕ → Text
dtmf_event_to_char code =
    if leb code 9
    then (48 + code) ∷ []
    else if code == 10
    then 42 ∷ []
    else if code == 11
    then 35 ∷ []
    else if code == 12
    then 65 ∷ []
    else if code == 13
    then 66 ∷ []
    else if code == 14
    then 67 ∷ []
    else if code == 15
    then 68 ∷ []
    else []

-- The four bytes: event, E bit with volume, duration in two bytes at 8000 to the second.
unfoldable pub parse_event : ℕ → ℕ → ℕ → ℕ → ℕ → Option DtmfEvent
parse_event now event flags high low =
    let duration = high * 256 + low in
    let digit = dtmf_event_to_char event in
    if flags / 128 % 2 == 0
    then none
    else if is_empty digit
    then none
    else some record { digit = digit; duration = duration * 1000 / 8000; time = now }

unfoldable pub parse_rfc2833 : ℕ → List ℕ → Option DtmfEvent
parse_rfc2833 now (event ∷ flags ∷ high ∷ low ∷ more) = parse_event now event flags high low
parse_rfc2833 now _ = none

pub record DtmfCollector : Type 0 where
  pub buffer : List DtmfEvent
  pub timeout : ℕ
  pub last_digit : ℕ
  pub has_callback : Bool

unfoldable pub new_dtmf_collector : ℕ → Bool → DtmfCollector
new_dtmf_collector timeout callback = record {
  buffer = [];
  timeout = timeout;
  last_digit = 0;
  has_callback = callback;
}

unfoldable pub add_digit : DtmfEvent → DtmfCollector → DtmfCollector
add_digit evt dc = record dc { buffer = dc.buffer ++ (evt ∷ []); last_digit = evt.time }

unfoldable pub digits_of : List DtmfEvent → Text
digits_of [] = []
digits_of (e ∷ es) = e.digit ++ digits_of es

unfoldable pub no_events : List DtmfEvent → Bool
no_events [] = true
no_events (e ∷ es) = false

unfoldable pub flush : DtmfCollector → DtmfCollector × Text
flush dc =
    if no_events dc.buffer then (dc, []) else (record dc { buffer = [] }, digits_of dc.buffer)

-- One tick of flushLoop, and what it hands to the callback.
unfoldable pub flush_tick : ℕ → DtmfCollector → DtmfCollector × List Text
flush_tick now dc =
    if not (no_events dc.buffer) && ltb dc.timeout (now - dc.last_digit)
    then (record dc { buffer = [] }, if dc.has_callback then digits_of dc.buffer ∷ [] else [])
    else (dc, [])

-- What happens to a collector: a key, or a tick of the loop.
pub data KeyStep : Type 0 where
  key : DtmfEvent → KeyStep
  tick : ℕ → KeyStep

unfoldable pub collect_all : List KeyStep → DtmfCollector → DtmfCollector × List Text
collect_all [] dc = (dc, [])
collect_all (key e ∷ steps) dc = collect_all steps (add_digit e dc)
collect_all (tick now ∷ steps) dc =
    let (dc', now_out) = flush_tick now dc in
    let (last, later) = collect_all steps dc' in (last, now_out ++ later)
