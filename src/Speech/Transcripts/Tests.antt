-- ===== src/Speech/Transcripts/Tests.antt =====
-- Examples for the transcriptions of a call.
use voiceagent.Base.{
  ℕ, ◌≡◌, refl, true, false, List, [], ◌∷◌, if◌then◌else◌, ◌==◌, Option, none, some, Text, lit, All,
  length, ◌≤◌, arith, trim_space, contains, has_prefix, same, get, put,
}
use voiceagent.Audio.Pcm.{Bytes}
use voiceagent.Speech.Transcripts.{
  is_whisper_hallucination, masked, transcribe_and_send, transcribe_all,
}
use voiceagent.Speech.Transcripts.Varied.{IsHeard, transcribe_all-IsHeard}

goodbye : is_whisper_hallucination (lit " Bye. ") ≡ true
unfolding is_whisper_hallucination trim_space contains has_prefix same get put
goodbye = refl

question : is_whisper_hallucination (lit "When does my order arrive?") ≡ false
unfolding is_whisper_hallucination trim_space contains has_prefix same get put
question = refl

-- The letters of "no" in three other words count as three times the word.
know_nothing : is_whisper_hallucination (lit "I know nothing now.") ≡ true
unfolding is_whisper_hallucination trim_space contains has_prefix same get put
know_nothing = refl

abbrev service : Bytes → Option Text
service [] = none
service (n ∷ pcm) = some (if n == 1 then lit "My order please" else lit "Oh.")

abbrev no_mask : Text → Text × ℕ
no_mask text = (text, 0)

abbrev utterances : List Bytes
utterances = (1 ∷ 0 ∷ []) ∷ (2 ∷ 0 ∷ []) ∷ []

one_heard : transcribe_all service no_mask utterances [] ≡ lit "My order please" ∷ []
unfolding transcribe_all transcribe_and_send is_whisper_hallucination trim_space contains has_prefix
    same get put masked
one_heard = refl

transcribe_all-IsHeard_example :
    All (IsHeard service no_mask (λ u. length u ≤ 2)) (transcribe_all service no_mask utterances [])
transcribe_all-IsHeard_example =
    transcribe_all-IsHeard service no_mask (λ u. length u ≤ 2) utterances
      (omega arith, (omega arith, tt))
