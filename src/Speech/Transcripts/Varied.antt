-- ===== src/Speech/Transcripts/Varied.antt =====
-- What the filter of gateway/main.go lets through to the conversation.
use voiceagent.Base.{
  ℕ, ◌≤◌, ◌<◌, ◌≡◌, refl, inl, inr, false, List, [], ◌∷◌, Option, some, leb, length, Text, is_empty,
  trim_space, All, All-append, arith, Bool-cases, Option-cases,
}
use voiceagent.Audio.Pcm.{Bytes}
use voiceagent.Speech.Transcripts.{
  fields_from, words_repeat, pairs_repeat, cleaned, is_whisper_hallucination, masked,
  transcribe_and_send, transcribe_all,
}
use voiceagent.Speech.Transcripts.Counts.{
  times, pairs, IsOften, words_repeat-IsOften, pairs_repeat-four,
}

-- No word is 4 times or more in a text and more than 2 in 5 of its words, and, among 8 words or more, no
-- two words follow each other 4 times or more.
abbrev pub IsVaried : List Text → Type 0
IsVaried ws = ((w : Text) → ¬ IsOften ws w) × (8 ≤ length ws → (p : Text) → times p (pairs ws) < 4)

abbrev pub words_of : Text → List Text
words_of text = fields_from [] (cleaned text)

let_through :
    (text : Text)
    → is_whisper_hallucination text ≡ false
    → (words_repeat (words_of text) ≡ false) × (pairs_repeat (words_of text) ≡ false)
unfolding is_whisper_hallucination
let_through text e = (ground (arith, e), ground (arith, e))

let_through-IsVaried :
    (text : Text) → is_whisper_hallucination text ≡ false → IsVaried (words_of text)
let_through-IsVaried text e =
    let (words, couples) = let_through text e in
    (
      λ w often. ground (arith, words, (words_repeat-IsOften (words_of text)).1 (w, often)),
      λ eight p. elim (Bool-cases (leb 4 (times p (pairs (words_of text))))) [
        | inl many ↦ absurd (
            ground (
              arith,
              couples,
              (pairs_repeat-four (words_of text)).1 (eight, (p, ground (arith, many))),
            ))
        | inr few ↦ ground (arith, few)
      ],
    )

module _ (whisper : Bytes → Option Text) (mask : Text → Text × ℕ) (P : Bytes → Type 0) where
  -- A text sent: a transcription of such an utterance without the white space around it, masked, that is
  -- varied.
  abbrev pub IsHeard : Text → Type 0
  IsHeard t =
      (pcm : Bytes) × (P pcm
        × ((raw : Text) × ((whisper pcm ≡ some raw)
              × ((t ≡ masked mask (trim_space raw))
                  × ((is_empty (trim_space raw) ≡ false) × IsVaried (words_of (trim_space raw)))))))

  transcribe_and_send-IsHeard :
      (pcm : Bytes) (sent : List Text)
      → P pcm
      → All IsHeard sent
      → All IsHeard (transcribe_and_send whisper mask pcm sent)
  unfolding transcribe_and_send
  transcribe_and_send-IsHeard pcm sent p h = elim (Bool-cases (is_empty pcm)) [
    | inl e ↦ rw (e) h
    | inr e ↦ rw (e) (elim (Option-cases (whisper pcm)) [
      | inl failed ↦ rw (failed) h
      | inr (raw, said) ↦ rw (said) (elim (Bool-cases (is_empty (trim_space raw))) [
        | inl blank ↦ rw (blank) h
        | inr full ↦ rw (full) (elim (Bool-cases (is_whisper_hallucination (trim_space raw))) [
          | inl noise ↦ rw (noise) h
          | inr speech ↦ rw (speech) (
              All-append IsHeard sent _ h (
                (
                  pcm,
                  (p, (raw, (said, (refl, (full, let_through-IsVaried (trim_space raw) speech))))),
                ),
                tt,
              ))
        ])
      ])
    ])
  ]

  transcribe_all_on :
      (pcms : List Bytes) (sent : List Text)
      → All P pcms
      → All IsHeard sent
      → All IsHeard (transcribe_all whisper mask pcms sent)
  unfolding transcribe_all
  transcribe_all_on [] sent ps h = h
  transcribe_all_on (pcm ∷ pcms) sent (p, ps) h =
      transcribe_all_on pcms _ ps (transcribe_and_send-IsHeard pcm sent p h)

  -- Whatever the utterances, all of which have some property, and their transcriptions, each text that the
  -- conversation hears is the masked form of a transcription of an utterance with the property that is
  -- not blank and in which, in lower case and without punctuation, no word is 4 times or more and more
  -- than 2 in 5 words, and, when it has 8 words or more, no two words follow each other 4 times or more.
  pub transcribe_all-IsHeard :
      (pcms : List Bytes) → All P pcms → All IsHeard (transcribe_all whisper mask pcms [])
  transcribe_all-IsHeard pcms ps = transcribe_all_on pcms [] ps tt
