-- ===== src/Speech/Conversation.antt =====
-- The turns of a conversation, claudeWorker of gateway/main.go, and how an action is read out of a
-- reply, ParseAction of gateway/actions.go and stripJSONToText. What JSON makes of a text, what the
-- language model replies, and what carrying out an action or a transfer says are arguments. No turn is cancelled.
pub mod Spoken
mod Tests
use voiceagent.Base.{
  ℕ, ◌+◌, Bool, true, false, ◌&&◌, ◌||◌, not, List, [], ◌∷◌, ◌++◌, Option, none, some,
  if◌then◌else◌, ◌==◌, Text, lit, same, is_empty, has_prefix, trim_space, drop, cut, leb, ltb, get,
}
use voiceagent.Sip.Answers.{before, from_first}
use voiceagent.Speech.Sentences.{split_sentences}

-- An action, with the endpoint of its API call.
pub record CallAction : Type 0 where
  pub kind : Text
  pub text : Text
  pub intent : Text
  pub api_call : Option Text

abbrev pub no_action : CallAction
no_action = record { kind = []; text = []; intent = []; api_call = none }

-- json.Unmarshal into an action, which keeps the fields that the text does not name, with whether it
-- succeeded; and the text field of an object, when the text is an object that has one.
pub record Json : Type 0 where
  pub decode_action : Text → CallAction → CallAction × Bool
  pub text_field : Text → Option Text

abbrev pub is_action : CallAction × Bool → Bool
is_action (a, ok) = ok && not (is_empty a.kind)

-- The text up to and with the last closing brace; none without one.
unfoldable pub to_last_brace : Text → Option Text
to_last_brace [] = none
to_last_brace (c ∷ s) =
    let rest = to_last_brace s in
    elim rest [ some t ↦ some (c ∷ t) | none ↦ if c == 125 then some (c ∷ []) else none ]

-- The text from the first opening to the last closing brace, with more than one byte.
unfoldable pub embedded : Text → Option Text
unfolding to_last_brace
embedded response = elim (from_first (lit "{") response) [ none ↦ none | some s ↦ to_last_brace s ]

unfoldable pub spoken_action : Text → CallAction
spoken_action response = record {
  kind = lit "speak";
  text = response;
  intent = lit "conversation";
  api_call = none;
}

unfoldable pub parse_action : Json → Text → CallAction
unfolding embedded spoken_action
parse_action json response =
    let trimmed = trim_space response in
    let whole = json.decode_action trimmed no_action in
    if is_action whole then whole.0 else elim (embedded trimmed) [
      | none ↦ spoken_action trimmed
      | some part ↦
          let inner = json.decode_action part whole.0 in
          if is_action inner then inner.0 else spoken_action trimmed
    ]

-- What stands between the two quotes after the first "text", when both are there.
unfoldable pub quoted_text : Text → Option Text
quoted_text s = elim (from_first (34 ∷ (lit "text" ++ (34 ∷ []))) s) [
  | none ↦ none
  | some found ↦ elim (cut 34 (drop 6 found)) [
    | none ↦ none
    | some (skipped, rest) ↦ elim (cut 34 rest) [ none ↦ none | some (text, after) ↦ some text ]
  ]
]

unfoldable pub strip_json_to_text : Json → Text → Text
unfolding quoted_text
strip_json_to_text json raw =
    let s = trim_space raw in
    let plain : Text = elim (quoted_text s) [
      | some t ↦ t
      | none ↦ if has_prefix s (lit "{") then [] else s
    ] in
    if is_empty s
    then s
    else elim (json.text_field s) [ none ↦ plain | some t ↦ if is_empty t then plain else t ]

pub data Message : Type 0 where
  user : Text → Message
  assistant : Text → Message

-- What comes of a request to an address: it cannot be made, has no answer, or is answered with a status.
pub data ApiAnswer : Type 0 where
  not_built : ApiAnswer
  no_answer : ApiAnswer
  status : ℕ → ApiAnswer

unfoldable pub api_text : CallAction → ApiAnswer → Text
api_text a not_built = lit "I'm sorry, I wasn't able to process that request. Let me try again."
api_text a no_answer =
    lit "I'm having trouble connecting to our system right now. Can I try again in a moment?"
api_text a (status n) =
    if leb 200 n && ltb n 300
    then a.text
    else lit
        "I wasn't able to complete that action. Would you like me to connect you with an agent who can help?"

-- The addresses by intent; an intent without one is taken as done.
unfoldable pub execute_api_call : List (Text × Text) → (Text → ApiAnswer) → CallAction → Text
unfolding api_text
execute_api_call urls request a = elim a.api_call [
  | none ↦ a.text
  | some endpoint ↦ elim (get a.intent urls) [
    | none ↦ a.text
    | some url ↦ if is_empty url then a.text else api_text a (request (url ++ endpoint))
  ]
]

unfoldable pub execute_action :
    List (Text × Text) → (Text → ApiAnswer) → (CallAction → Text) → CallAction → Text
unfolding execute_api_call
execute_action urls request transfer a =
    if same a.kind (lit "api_call")
    then execute_api_call urls request a
    else if same a.kind (lit "transfer")
    then transfer a
    else a.text

-- The history, and the sentences that go to the speech service.
pub record Talk : Type 0 where
  pub history : List Message
  pub sentences : List Text

abbrev pub is_executed : CallAction → Bool
is_executed a = same a.kind (lit "api_call") || same a.kind (lit "transfer")

-- What is said for a reply.
unfoldable pub spoken_text : Json → (CallAction → Text) → Text → Text
unfolding parse_action strip_json_to_text
spoken_text json execute full =
    let action = parse_action json full in
    if is_executed action
    then execute action
    else if is_empty action.text
    then strip_json_to_text json full
    else action.text

-- What the model's answer, none on an error, makes of a turn.
unfoldable pub answer_turn : Json → (CallAction → Text) → List Message → Option Text → Talk → Talk
answer_turn json execute asked none t = record t { history = asked }
answer_turn json execute asked (some full) t =
    let spoken = spoken_text json execute full in
    record {
      history = asked ++ (assistant spoken ∷ []);
      sentences = t.sentences ++ split_sentences spoken;
    }

-- A turn: the transcript, with the history up to it, goes to the model.
unfoldable pub take_turn :
    Json → (CallAction → Text) → (List Message → Option Text) → Text → Talk → Talk
unfolding answer_turn
take_turn json execute llm transcript t =
    let asked = t.history ++ (user transcript ∷ []) in answer_turn json execute asked (llm asked) t

unfoldable pub converse :
    Json → (CallAction → Text) → (List Message → Option Text) → List Text → Talk → Talk
converse json execute llm [] t = t
converse json execute llm (transcript ∷ rest) t =
    converse json execute llm rest (take_turn json execute llm transcript t)

unfoldable pub new_talk : Talk
new_talk = record { history = []; sentences = [] }
