-- ===== src/Sip/Bodies/Parts.antt =====
-- The streams of a recording, as gateway/siprec_meta.go labels them.
use voiceagent.Base.{
  ◌≡◌, refl, true, false, List, [], ◌∷◌, Option, none, some, All, arith, lit, same, is_empty,
  Option-cases, inl, inr,
}
use voiceagent.Sip.Bodies.{
  SiprecStream, RecordingSession, label_streams, extract_streams, last_labelled, build_context,
}

abbrev pub IsUnlabelled : SiprecStream → Type 0
IsUnlabelled s = is_empty s.label ≡ true

abbrev pub as_agent : SiprecStream → SiprecStream
as_agent s = record s { label = lit "agent" }

unfoldable pub last_of : List SiprecStream → Option SiprecStream
last_of [] = none
last_of (s ∷ ss) = let rest = last_of ss in elim rest [ some t ↦ some t | none ↦ some (as_agent s) ]

later_agents :
    (ss : List SiprecStream)
    → All IsUnlabelled ss
    → (last_labelled (lit "agent") (label_streams false ss) ≡ last_of ss)
      × (last_labelled (lit "caller") (label_streams false ss) ≡ none)
unfolding last_labelled label_streams last_of same
later_agents [] h = (refl, refl)
later_agents (s ∷ ss) (h, hs) =
    let (agents, callers) = later_agents ss hs in
    elim (Option-cases (last_of ss)) [
      | inl e ↦ (ground (arith, h, agents, e), ground (arith, h, callers))
      | inr (t, e) ↦ (ground (arith, h, agents, e), ground (arith, h, callers))
    ]

first_caller :
    (s : SiprecStream) (ss : List SiprecStream)
    → IsUnlabelled s
    → All IsUnlabelled ss
    → (last_labelled (lit "caller") (label_streams true (s ∷ ss))
        ≡ some (record s { label = lit "caller" }))
      × (last_labelled (lit "agent") (label_streams true (s ∷ ss)) ≡ last_of ss)
unfolding last_labelled label_streams same
first_caller s ss h hs =
    let (agents, callers) = later_agents ss hs in
    elim (Option-cases (last_of ss)) [
      | inl e ↦ (ground (arith, h, callers), ground (arith, h, agents, e))
      | inr (t, e) ↦ (ground (arith, h, callers), ground (arith, h, agents, e))
    ]

-- In a recording whose streams have no labels the caller's stream is the first one, and the agent's the
-- last one after it, of which there may be none.
pub build_context-unlabelled :
    (rs : RecordingSession) (s : SiprecStream) (ss : List SiprecStream)
    → rs.streams ≡ s ∷ ss
    → IsUnlabelled s
    → All IsUnlabelled ss
    → ((build_context rs).caller_stream ≡ some (record s { label = lit "caller" }))
      × ((build_context rs).agent_stream ≡ last_of ss)
unfolding build_context extract_streams
build_context-unlabelled rs s ss e h hs = rw (e) (first_caller s ss h hs)
