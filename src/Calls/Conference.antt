-- ===== src/Calls/Conference.antt =====
-- Conferences of gateway/conference.go and their handlers in gateway/callcontrol.go. A conference is an
-- object, named by its place in the list of all that were made; the registry and a call point to it.
pub mod Steps
pub mod Lifetime
pub mod Thirds
mod Tests
use voiceagent.Base.{
  ℕ, zero, suc, ◌+◌, Bool, true, false, ◌&&◌, ◌||◌, not, List, [], ◌∷◌, ◌++◌, Option, none, some,
  if◌then◌else◌, ◌==◌, length, get_elem?, Text, lit, same, is_empty, get, put, del,
}
use voiceagent.Calls.Control.{extract_siprec_call_id}

-- The third party is a browser's session or a dialled leg, each by its number.
pub record ConferenceSession : Type 0 where
  pub call_id : Text
  pub third_type : Text
  pub third_id : Text
  pub third_active : Bool
  pub third_wrtc : Option ℕ
  pub third_rtp : Option ℕ
  pub cancelled : Bool

-- The fields of a siprecSession that conferences and supervisors use; `whispers` says that there is a
-- whisperCh.
pub record CallSession : Type 0 where
  pub caller_number : Text
  pub conference : Option ℕ
  pub audio_taps : List ℕ
  pub agent_taps : List ℕ
  pub whispers : Bool

-- A ring of an agent: the agent, the call and the number that is shown.
abbrev pub Ring : Type 0
Ring = Text × (Text × Text)

pub record Floor : Type 0 where
  pub calls : List (Text × CallSession)
  pub conferences : List (Text × ℕ)
  pub objects : List ConferenceSession
  pub webrtc_sessions : List (Text × ℕ)
  pub closed_wrtc : List ℕ
  pub closed_rtp : List ℕ
  pub rung : List Ring

-- Object number i is changed in place.
unfoldable pub change_object :
    ℕ → (ConferenceSession → ConferenceSession) → List ConferenceSession → List ConferenceSession
change_object i f [] = []
change_object zero f (c ∷ cs) = f c ∷ cs
change_object (suc i) f (c ∷ cs) = c ∷ change_object i f cs

unfoldable pub set_conference :
    Text → Option ℕ → List (Text × CallSession) → List (Text × CallSession)
set_conference call_id c calls = elim (get call_id calls) [
  | none ↦ calls
  | some s ↦ put call_id (record s { conference = c }) calls
]

unfoldable pub shown_number : CallSession → Text
shown_number s = if is_empty s.caller_number then lit "Conference" else s.caller_number

-- What is started for the third party: an agent is rung; an external number is dialled by a goroutine,
-- whose success is `external_answered`.
unfoldable pub add_third : Text → Text → Text → CallSession → List Ring → List Ring
unfolding shown_number
add_third call_id target_type target s rung =
    if same target_type (lit "agent")
    then rung ++ ((target, (call_id, shown_number s)) ∷ [])
    else rung

unfoldable pub start_conference : Text → Text → Text → Floor → Floor × Option ℕ
unfolding add_third set_conference
start_conference call_id target_type target fl = elim (get call_id fl.calls) [
  | none ↦ (fl, none)
  | some s ↦
      let i = length fl.objects in
      let cs : ConferenceSession = record {
        call_id = call_id;
        third_type = target_type;
        third_id = target;
        third_active = false;
        third_wrtc = none;
        third_rtp = none;
        cancelled = false;
      } in
      (
        record fl {
          calls = set_conference call_id (some i) fl.calls;
          conferences = put call_id i fl.conferences;
          objects = fl.objects ++ (cs ∷ []);
          rung = add_third call_id target_type target s fl.rung;
        },
        some i,
      )
]

-- No code of the gateway calls it.
unfoldable pub activate_third_agent : ℕ → ℕ → Floor → Floor
activate_third_agent i session fl = record fl {
  objects =
      change_object i (λ c. record c { third_wrtc = some session; third_active = true }) fl.objects;
}

-- The goroutine that dials runs only for a conference with an external third party.
unfoldable pub external_answered : ℕ → ℕ → Floor → Floor
external_answered i leg fl = record fl {
  objects =
      change_object i
        (λ c.
          if same c.third_type (lit "external")
          then record c { third_rtp = some leg; third_active = true }
          else c)
        fl.objects;
}

-- The first entry of the session in the order of the iteration is deleted.
unfoldable pub del_session : ℕ → List (Text × ℕ) → List (Text × ℕ)
del_session w [] = []
del_session w ((k, v) ∷ m) = if v == w then m else (k, v) ∷ del_session w m

abbrev pub without_third : ConferenceSession → ConferenceSession
without_third c = record c { third_active = false; third_wrtc = none; third_rtp = none }

abbrev pub closing : Option ℕ → List ℕ → List ℕ
closing none closed = closed
closing (some x) closed = closed ++ (x ∷ [])

unfoldable pub close_third : ℕ → ConferenceSession → Floor → Floor
close_third i cs fl = record fl {
  objects = change_object i without_third fl.objects;
  webrtc_sessions = elim cs.third_wrtc [
    | none ↦ fl.webrtc_sessions
    | some w ↦ del_session w fl.webrtc_sessions
  ];
  closed_wrtc = closing cs.third_wrtc fl.closed_wrtc;
  closed_rtp = closing cs.third_rtp fl.closed_rtp;
}

-- The object that the registry has for a call.
unfoldable pub registered : Text → Floor → Option (ℕ × ConferenceSession)
registered call_id fl = elim (get call_id fl.conferences) [
  | none ↦ none
  | some i ↦ elim (get_elem? fl.objects i) [ none ↦ none | some cs ↦ some (i, cs) ]
]

-- False is the error that there is no conference.
unfoldable pub drop_third_party : Text → Floor → Floor × Bool
unfolding close_third
drop_third_party call_id fl = elim (registered call_id fl) [
  | none ↦ (fl, false)
  | some (i, cs) ↦ (close_third i cs fl, true)
]

-- The conference is cancelled and its third party closed; its fields keep their values.
unfoldable pub end_conference : Text → Floor → Floor
unfolding set_conference
end_conference call_id fl = elim (registered call_id fl) [
  | none ↦ fl
  | some (i, cs) ↦ record fl {
    calls = set_conference call_id none fl.calls;
    conferences = del call_id fl.conferences;
    objects = change_object i (λ c. record c { cancelled = true }) fl.objects;
    closed_wrtc = closing cs.third_wrtc fl.closed_wrtc;
    closed_rtp = closing cs.third_rtp fl.closed_rtp;
  }
]

-- The code of an answer, by whether a conference was started.
unfoldable pub start_answer : Floor × Option ℕ → Floor × ℕ
start_answer (fl, none) = (fl, 500)
start_answer (fl, some i) = (fl, 200)

unfoldable pub handle_call_conference : Text → Text → Text → Floor → Floor × ℕ
unfolding start_answer
handle_call_conference call_id target target_type fl =
    if is_empty call_id || is_empty target
    then (fl, 400)
    else start_answer (
        start_conference (extract_siprec_call_id call_id)
          (if is_empty target_type then lit "agent" else target_type) target fl)

unfoldable pub handle_conference_drop : Text → Text → Floor → Floor × ℕ
handle_conference_drop call_id who fl =
    let call = extract_siprec_call_id call_id in
    if same who (lit "third")
    then (let (fl', found) = drop_third_party call fl in if found then (fl', 200) else (fl', 500))
    else if same who (lit "self")
    then (end_conference call fl, 200)
    else (fl, 400)

-- What happens to conferences: the two handlers, the start by a supervisor who barges in, and the
-- answer of a leg that was dialled.
pub data ConferenceStep : Type 0 where
  conference : Text → Text → Text → ConferenceStep
  drop_who : Text → Text → ConferenceStep
  barge : Text → Text → ConferenceStep
  answered : ℕ → ℕ → ConferenceStep

unfoldable pub conference_step : ConferenceStep → Floor → Floor
conference_step (conference call_id target target_type) fl =
    (handle_call_conference call_id target target_type fl).0
conference_step (drop_who call_id who) fl = (handle_conference_drop call_id who fl).0
conference_step (barge call_id user) fl = (start_conference call_id (lit "agent") user fl).0
conference_step (answered i leg) fl = external_answered i leg fl

unfoldable pub run_conferences : List ConferenceStep → Floor → Floor
run_conferences [] fl = fl
run_conferences (x ∷ xs) fl = run_conferences xs (conference_step x fl)
