-- ===== src/Speech/Pipeline/Turns.antt =====
-- What a whole session of gateway/main.go says, of what it hears.
use voiceagent.Base.{
  ℕ, ◌+◌, ◌≤◌, ◌≡◌, ◌&&◌, not, List, [], ◌∷◌, ◌++◌, none, some, Bool, true, false, length, All,
  All-append, is_empty, if◌then◌else◌, subst, sym, arith,
}
use voiceagent.Audio.Pcm.{Bytes}
use voiceagent.Speech.Segments.{SoundFrame, Vad, max_bytes, new_vad, run_vad, end_of_input}
use voiceagent.Speech.Segments.Limits.{run_vad-Calm}
use voiceagent.Speech.Sentences.Parts.{letters, joined}
use voiceagent.Speech.Transcripts.Varied.{IsHeard, transcribe_all-IsHeard}
use voiceagent.Speech.Conversation.{Talk}
use voiceagent.Speech.Conversation.Spoken.{heard, replies, converse-InStep}
use voiceagent.Speech.Pipeline.{with_last, utterances_of, Services, texts_of, run_session}

abbrev pub IsShort : ℕ → Bytes → Type 0
IsShort size u = length u ≤ max_bytes + size

with_last-IsShort :
    (size : ℕ) (v : Vad) (sent : List Bytes)
    → length v.audio_buf ≤ max_bytes
    → All (IsShort size) sent
    → All (IsShort size) (with_last (v, sent))
unfolding with_last end_of_input
with_last-IsShort size v sent few short = whether (not (is_empty v.audio_buf) && v.speech_active)
  where
    whether :
        (speaks : Bool)
        → All (IsShort size) (elim (if speaks then some v.audio_buf else none) [
          | none ↦ sent
          | some last ↦ sent ++ (last ∷ [])
        ])
    whether true = All-append (IsShort size) sent _ short (omega arith, tt)
    whether false = short

utterances_of-IsShort :
    (size : ℕ) (fs : List SoundFrame)
    → All (λ f. length f.pcm ≤ size) fs
    → All (IsShort size) (utterances_of fs)
unfolding utterances_of
utterances_of-IsShort size fs h =
    let (calm, short) = run_vad-Calm size fs h in
    with_last-IsShort size (run_vad fs new_vad).0 (run_vad fs new_vad).1 calm.0 short

-- Whatever frames of at most a size come in, and whatever the services answer: what the callers said in
-- the history is, in order, what was transcribed, each of it heard of an utterance of at most 8 seconds
-- and one frame and let through by the filter, and the sentences that are spoken are, but for white space,
-- the assistant's messages of the history.
pub run_session-InStep :
    (s : Services) (size : ℕ) (fs : List SoundFrame)
    → All (λ f. length f.pcm ≤ size) fs
    → let talk : Talk = run_session s fs in
      (heard talk.history ≡ texts_of s fs)
      × ((All (IsHeard s.whisper s.mask (IsShort size)) (heard talk.history))
          × (letters (joined talk.sentences) ≡ letters (replies talk.history)))
unfolding run_session
run_session-InStep s size fs h =
    let (order, spoken) = converse-InStep s.json s.execute s.model (texts_of s fs) in
    let all_heard =
      transcribe_all-IsHeard s.whisper s.mask (IsShort size) (utterances_of fs)
        (utterances_of-IsShort size fs h) in
    (order, (subst (All (IsHeard s.whisper s.mask (IsShort size))) (sym order) all_heard, spoken))
