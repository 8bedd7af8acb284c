-- ===== src/Speech/Pipeline.antt =====
-- The stages of a session of gateway/main.go behind one another: what sttPipeline cuts is transcribed and
-- sent to claudeWorker, which answers it. Each stage is one goroutine and its channel keeps the order.
pub mod Turns
mod Tests
use voiceagent.Base.{List, [], ◌∷◌, ◌++◌, Option, none, some, Text, ℕ}
use voiceagent.Audio.Pcm.{Bytes}
use voiceagent.Speech.Segments.{SoundFrame, Vad, new_vad, run_vad, end_of_input}
use voiceagent.Speech.Transcripts.{transcribe_all}
use voiceagent.Speech.Conversation.{CallAction, Json, Message, Talk, new_talk, converse}

-- The utterances, with the one that the end of the input cuts off.
unfoldable pub with_last : Vad × List Bytes → List Bytes
with_last (v, sent) = elim (end_of_input v) [ none ↦ sent | some last ↦ sent ++ (last ∷ []) ]

unfoldable pub utterances_of : List SoundFrame → List Bytes
unfolding with_last
utterances_of fs = with_last (run_vad fs new_vad)

-- The services that a session calls.
pub record Services : Type 0 where
  pub whisper : Bytes → Option Text
  pub mask : Text → Text × ℕ
  pub json : Json
  pub execute : CallAction → Text
  pub model : List Message → Option Text

abbrev pub texts_of : Services → List SoundFrame → List Text
texts_of s fs = transcribe_all s.whisper s.mask (utterances_of fs) []

unfoldable pub run_session : Services → List SoundFrame → Talk
unfolding utterances_of
run_session s fs = converse s.json s.execute s.model (texts_of s fs) new_talk
