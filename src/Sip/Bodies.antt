-- ===== src/Sip/Bodies.antt =====
-- The bodies of SIP requests: parseMultipartBody and parseSDPOffer of gateway/sipserver.go, and what
-- ExtractStreams and BuildContext of gateway/siprec_meta.go make of the metadata of a recording. What
-- the libraries read out of an SDP or an XML text is an argument of their users.
pub mod Parts
mod Tests
use voiceagent.Base.{
  ℕ, zero, suc, ◌-◌, ℤ, Bool, true, false, ◌||◌, List, [], ◌∷◌, ◌++◌, Option, none, some,
  if◌then◌else◌, length, Text, lit, same, is_empty, has_prefix, contains, to_lower, split,
  trim_space, trim_prefix, trim_byte, put, get,
}
use voiceagent.Sip.Answers.{crlf, from_first}

-- strings.Split(s, sep) for a sep with a byte at least; `skip` bytes of a sep are still to be left out.
unfoldable pub split_on : ℕ → Text → Text → List Text
split_on skip sep [] = [] ∷ []
split_on (suc skip) sep (c ∷ s) = split_on skip sep s
split_on zero sep (c ∷ s) =
    let after = split_on (length sep - 1) sep s in
    let rest = split_on zero sep s in
    if has_prefix (c ∷ s) sep
    then [] ∷ after
    else elim rest [ [] ↦ (c ∷ []) ∷ [] | part ∷ parts ↦ (c ∷ part) ∷ parts ]

-- The boundary of the first parameter that names one.
unfoldable pub boundary_of : List Text → Text
boundary_of [] = []
boundary_of (p ∷ ps) =
    if has_prefix (trim_space p) (lit "boundary=")
    then trim_byte 34 (trim_prefix (trim_space p) (lit "boundary="))
    else boundary_of ps

unfoldable pub part_body : Text → Option Text
unfolding from_first
part_body part = elim (from_first (crlf ++ crlf) part) [
  | some s ↦ some (trim_space s)
  | none ↦ elim (from_first (10 ∷ 10 ∷ []) part) [ some s ↦ some (trim_space s) | none ↦ none ]
]

-- One part, and the SDP and XML parts found before it.
unfoldable pub read_part : Text → Text × Text → Text × Text
unfolding part_body
read_part raw (sdp, xml) =
    let part = trim_space raw in
    let lower = to_lower part in
    if is_empty part || same part (lit "--") then (sdp, xml) else elim (part_body part) [
      | none ↦ (sdp, xml)
      | some body ↦
          if contains lower (lit "application/sdp")
          then (body, xml)
          else if contains lower (lit "application/rs-metadata") || contains lower (lit "xml")
          then (sdp, body)
          else (sdp, xml)
    ]

unfoldable pub read_parts : List Text → Text × Text → Text × Text
read_parts [] found = found
read_parts (p ∷ ps) found = read_parts ps (read_part p found)

unfoldable pub parse_multipart_body : Text → Text → Text × Text
unfolding split_on boundary_of read_parts
parse_multipart_body body content_type =
    let boundary = boundary_of (split 59 content_type) in
    if is_empty boundary
    then (body, [])
    else read_parts (split_on 0 (lit "--" ++ boundary) body) ([], [])

pub record SdpMedia : Type 0 where
  pub port : ℤ
  pub connection : Option Text
  pub formats : List Text

pub record SdpOffer : Type 0 where
  pub connection : Option Text
  pub media : List SdpMedia

abbrev pub codec_of : List Text → Text
codec_of [] = lit "PCMU"
codec_of (f ∷ fs) = if same f (lit "8") then lit "PCMA" else lit "PCMU"

-- The address, the port and the codec; none for a text that is no SDP or has no media.
unfoldable pub parse_sdp_offer : (Text → Option SdpOffer) → Text → Option (Text × (ℤ × Text))
parse_sdp_offer sdp_of body = elim (sdp_of body) [
  | none ↦ none
  | some sd ↦ elim sd.media [
    | [] ↦ none
    | m ∷ ms ↦
        let addr : Text = elim m.connection [
          | some a ↦ a
          | none ↦ elim sd.connection [ some a ↦ a | none ↦ [] ]
        ] in
        some (addr, (m.port, codec_of m.formats))
  ]
]

pub record Participant : Type 0 where
  pub id : Text
  pub name : Text
  pub aor : Text

pub record SiprecStream : Type 0 where
  pub id : Text
  pub participant_id : Text
  pub label : Text

pub record RecordingSession : Type 0 where
  pub participants : List Participant
  pub streams : List SiprecStream

-- The streams with their labels, `first` for the one at position 0.
unfoldable pub label_streams : Bool → List SiprecStream → List SiprecStream
label_streams first [] = []
label_streams first (s ∷ ss) =
    let label =
      if is_empty s.label then (if first then lit "caller" else lit "agent") else s.label in
    record s { label = label } ∷ label_streams false ss

unfoldable pub extract_streams : RecordingSession → List SiprecStream
unfolding label_streams
extract_streams rs = label_streams true rs.streams

-- The last stream with the label.
unfoldable pub last_labelled : Text → List SiprecStream → Option SiprecStream
last_labelled label [] = none
last_labelled label (s ∷ ss) =
    let rest = last_labelled label ss in
    elim rest [ some t ↦ some t | none ↦ if same s.label label then some s else none ]

unfoldable pub name_participants : List Participant → List (Text × Text) → List (Text × Text)
name_participants [] m = m
name_participants (p ∷ ps) m =
    name_participants ps (put p.id (if is_empty p.name then p.aor else p.name) m)

pub record SessionContext : Type 0 where
  pub participants : List (Text × Text)
  pub streams : List SiprecStream
  pub caller_stream : Option SiprecStream
  pub agent_stream : Option SiprecStream

unfoldable pub build_context : RecordingSession → SessionContext
unfolding extract_streams last_labelled name_participants
build_context rs =
    let streams = extract_streams rs in
    record {
      participants = name_participants rs.participants [];
      streams = streams;
      caller_stream = last_labelled (lit "caller") streams;
      agent_stream = last_labelled (lit "agent") streams;
    }
