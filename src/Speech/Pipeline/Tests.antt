-- ===== src/Speech/Pipeline/Tests.antt =====
-- A session in which one word is heard and answered.
use voiceagent.Base.{◌≡◌, true, false, List, [], ◌∷◌, none, some, lit, All, replicate, arith}
use voiceagent.Speech.Segments.{SoundFrame}
use voiceagent.Speech.Sentences.Parts.{letters, joined}
use voiceagent.Speech.Transcripts.Varied.{IsHeard}
use voiceagent.Speech.Conversation.{Talk}
use voiceagent.Speech.Conversation.Spoken.{heard, replies}
use voiceagent.Speech.Pipeline.{Services, texts_of, run_session}
use voiceagent.Speech.Pipeline.Turns.{IsShort, run_session-InStep}

abbrev services : Services
services = record {
  whisper = λ pcm. some (lit "My order please");
  mask = λ text. (text, 0);
  json = record { decode_action = λ t a. (a, false); text_field = λ t. none };
  execute = λ a. a.text;
  model = λ messages. some (lit "Which one?");
}

abbrev tone : SoundFrame
tone = record { pcm = 9 ∷ 9 ∷ []; loud = true; playing = false }

abbrev sound : List SoundFrame
sound = replicate 26 tone

run_session-InStep_example :
    let talk : Talk = run_session services sound in
    (heard talk.history ≡ texts_of services sound)
    × ((All (IsHeard services.whisper services.mask (IsShort 2)) (heard talk.history))
        × (letters (joined talk.sentences) ≡ letters (replies talk.history)))
run_session-InStep_example = run_session-InStep services 2 sound (ground arith)
