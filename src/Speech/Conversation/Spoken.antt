-- ===== src/Speech/Conversation/Spoken.antt =====
-- What a caller of gateway/main.go hears of a conversation.
use voiceagent.Base.{
  ◌≡◌, refl, ap, ◌∙◌, sym, List, [], ◌∷◌, ◌++◌, append_assoc, append-nil, Option, none, some, Text,
}
use voiceagent.Speech.Sentences.{split_sentences}
use voiceagent.Speech.Sentences.Parts.{letters, joined, letters-append, split_sentences-letters}
use voiceagent.Speech.Conversation.{
  CallAction, Json, Message, user, assistant, Talk, spoken_text, answer_turn, take_turn, converse,
  new_talk,
}

-- The assistant's messages put together.
unfoldable pub replies : List Message → Text
replies [] = []
replies (user t ∷ ms) = replies ms
replies (assistant t ∷ ms) = t ++ replies ms

-- The callers' messages in order.
unfoldable pub heard : List Message → List Text
heard [] = []
heard (user t ∷ ms) = t ∷ heard ms
heard (assistant t ∷ ms) = heard ms

replies-append : (xs ys : List Message) → replies (xs ++ ys) ≡ replies xs ++ replies ys
unfolding replies
replies-append [] ys = refl
replies-append (user t ∷ xs) ys = replies-append xs ys
replies-append (assistant t ∷ xs) ys =
    ap (λ r. t ++ r) (replies-append xs ys) ∙ sym (append_assoc t (replies xs) (replies ys))

heard-append : (xs ys : List Message) → heard (xs ++ ys) ≡ heard xs ++ heard ys
unfolding heard
heard-append [] ys = refl
heard-append (user t ∷ xs) ys = ap (λ r. t ∷ r) (heard-append xs ys)
heard-append (assistant t ∷ xs) ys = heard-append xs ys

joined-append : (xs ys : List Text) → joined (xs ++ ys) ≡ joined xs ++ joined ys
unfolding joined
joined-append [] ys = refl
joined-append (s ∷ xs) ys =
    ap (λ r. s ++ r) (joined-append xs ys) ∙ sym (append_assoc s (joined xs) (joined ys))

abbrev InStep : Talk → Type 0
InStep t = letters (joined t.sentences) ≡ letters (replies t.history)

-- The transcript is the last thing heard after the turn, and the sentences stay in step.
abbrev Turned : Text → Talk → Talk → Type 0
Turned transcript t u = (heard u.history ≡ heard t.history ++ (transcript ∷ [])) × InStep u

module _ (json : Json) (execute : CallAction → Text) (llm : List Message → Option Text) where
  turn_none :
      (transcript : Text) (t : Talk)
      → InStep t
      → Turned transcript t (record t { history = t.history ++ (user transcript ∷ []) })
  unfolding heard replies
  turn_none transcript t h = (
    heard-append t.history (user transcript ∷ []),
    h
        ∙ ap letters (
            sym (append-nil (replies t.history))
            ∙ sym (replies-append t.history (user transcript ∷ []))),
  )

  turn_some :
      (transcript spoken : Text) (t : Talk)
      → InStep t
      → Turned transcript t (record {
        history = (t.history ++ (user transcript ∷ [])) ++ (assistant spoken ∷ []);
        sentences = t.sentences ++ split_sentences spoken;
      })
  unfolding heard replies
  turn_some transcript spoken t h =
      let asked : List Message = t.history ++ (user transcript ∷ []) in
      let before = turn_none transcript t h in
      (
        heard-append asked (assistant spoken ∷ []) ∙ append-nil (heard asked) ∙ before.0,
        ap letters (joined-append t.sentences (split_sentences spoken))
            ∙ letters-append (joined t.sentences) (joined (split_sentences spoken))
            ∙ ap (λ r. letters (joined t.sentences) ++ r) (split_sentences-letters spoken)
            ∙ ap (λ r. r ++ letters spoken) before.1
            ∙ sym (letters-append (replies asked) spoken)
            ∙ ap letters (
                ap (λ r. replies asked ++ r) (sym (append-nil spoken))
                ∙ sym (replies-append asked (assistant spoken ∷ []))),
      )

  answer_turn-Turned :
      (transcript : Text) (reply : Option Text) (t : Talk)
      → InStep t
      → Turned transcript t (answer_turn json execute (t.history ++ (user transcript ∷ [])) reply t)
  unfolding answer_turn
  answer_turn-Turned transcript none t h = turn_none transcript t h
  answer_turn-Turned transcript (some full) t h =
      turn_some transcript (spoken_text json execute full) t h

  converse_on :
      (transcripts : List Text) (t : Talk)
      → InStep t
      → let u : Talk = converse json execute llm transcripts t in
        (heard u.history ≡ heard t.history ++ transcripts) × InStep u
  unfolding converse take_turn
  converse_on [] t h = (sym (append-nil (heard t.history)), h)
  converse_on (transcript ∷ rest) t h =
      let (now, step) =
        answer_turn-Turned transcript (llm (t.history ++ (user transcript ∷ []))) t h in
      let (later, steps) = converse_on rest (take_turn json execute llm transcript t) step in
      (
        later ∙ ap (λ r. r ++ rest) now ∙ append_assoc (heard t.history) (transcript ∷ []) rest,
        steps,
      )

  -- Whatever the model replies, errors included, the history has the callers' transcripts in order, and
  -- the sentences that are spoken are, but for white space, the assistant's messages of the history.
  pub converse-InStep :
      (transcripts : List Text)
      → let talk : Talk = converse json execute llm transcripts new_talk in
        (heard talk.history ≡ transcripts)
        × (letters (joined talk.sentences) ≡ letters (replies talk.history))
  unfolding new_talk heard replies joined
  converse-InStep transcripts = converse_on transcripts new_talk refl
