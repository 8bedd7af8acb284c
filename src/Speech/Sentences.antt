-- ===== src/Speech/Sentences.antt =====
-- The sentences of a reply, sentenceEnd and splitSentences of gateway/main.go. A sentence ends at a full
-- stop, byte 46, an exclamation mark, byte 33, or a question mark, byte 63, that stands before a space,
-- byte 32, or at the end.
pub mod Parts
mod Tests
use voiceagent.Base.{
  ℕ, zero, suc, Bool, ◌&&◌, ◌||◌, List, [], ◌∷◌, Option, none, some, if◌then◌else◌, ◌==◌, length,
  Text, is_empty, trim_space,
}

abbrev pub is_mark : ℕ → Bool
is_mark c = c == 46 || (c == 33 || c == 63)

abbrev pub ends_here : Text → Bool
ends_here [] = Bool.true
ends_here (c ∷ s) = c == 32

-- The text up to and with the first end of a sentence and the text after it, which the index that
-- sentenceEnd finds divides; none without one.
unfoldable pub cut_sentence : Text → Option (Text × Text)
cut_sentence [] = none
cut_sentence (c ∷ s) =
    let rest = cut_sentence s in
    if is_mark c && ends_here s
    then some (c ∷ [], s)
    else elim rest [ none ↦ none | some (before, after) ↦ some (c ∷ before, after) ]

-- The trimmed text, unless nothing is left of it.
abbrev pub keep_full : Text → List Text → List Text
keep_full s rest = if is_empty (trim_space s) then rest else trim_space s ∷ rest

-- The loop, with fuel for its rounds, and what it does after it.
unfoldable pub split_from : ℕ → Text → List Text
split_from zero buf = keep_full buf []
split_from (suc n) buf = elim (cut_sentence buf) [
  | none ↦ keep_full buf []
  | some (before, after) ↦ let rest = split_from n after in keep_full before rest
]

unfoldable pub split_sentences : Text → List Text
split_sentences text =
    let sentences = split_from (length text) text in
    if is_empty sentences then keep_full text [] else sentences
