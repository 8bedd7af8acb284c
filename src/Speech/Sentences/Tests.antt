-- ===== src/Speech/Sentences/Tests.antt =====
-- A reply of two sentences.
use voiceagent.Base.{◌≡◌, Text, lit}
use voiceagent.Speech.Sentences.{split_sentences}
use voiceagent.Speech.Sentences.Parts.{letters, joined, split_sentences-letters}

abbrev reply : Text
reply = lit "Hello there. How are you?"

split_sentences-letters_example : letters (joined (split_sentences reply)) ≡ letters reply
split_sentences-letters_example = split_sentences-letters reply
