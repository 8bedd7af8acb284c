-- ===== src/Speech/Conversation/Tests.antt =====
-- A reply of the model that is no JSON.
use voiceagent.Base.{◌≡◌, refl, none, lit, has_prefix, trim_space}
use voiceagent.Sip.Answers.{from_first}
use voiceagent.Speech.Conversation.{Json, parse_action, spoken_action}

-- Texts that are braced are objects with nothing of use.
abbrev no_json : Json
no_json = record { decode_action = λ t a. (a, has_prefix t (lit "{")); text_field = λ t. none }

plain_reply : parse_action no_json (lit " sure {} ") ≡ spoken_action (lit "sure {}")
unfolding parse_action trim_space from_first has_prefix
plain_reply = refl
