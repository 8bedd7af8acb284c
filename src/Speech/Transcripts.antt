-- ===== src/Speech/Transcripts.antt =====
-- What the gateway makes of a transcription, transcribeAndSend and isWhisperHallucination of
-- gateway/main.go. The service and the masking are arguments. A ratio of two lengths is compared
-- exactly, as the floats of the source do for texts of fewer than 2 ^ 50 words.
pub mod Counts
pub mod Varied
mod Tests
use voiceagent.Base.{
  ℕ, zero, suc, ◌+◌, ◌-◌, ◌*◌, Bool, true, false, ◌&&◌, ◌||◌, List, [], ◌∷◌, ◌++◌, Option, none,
  some, if◌then◌else◌, leb, ltb, ◌==◌, length, Text, lit, same, is_empty, has_prefix, contains,
  is_space, trim_space, to_lower, get, put,
}
use voiceagent.Audio.Pcm.{Bytes}

-- strings.NewReplacer of single bytes with nothing.
unfoldable pub without : List ℕ → Text → Text
without bytes [] = []
without bytes (c ∷ s) =
    let rest = without bytes s in if contains bytes (c ∷ []) then rest else c ∷ rest

-- strings.Count of a text that is not empty, with the bytes that the last match still covers.
unfoldable pub count_from : ℕ → Text → Text → ℕ
count_from skip h [] = 0
count_from (suc skip) h (c ∷ s) = count_from skip h s
count_from zero h (c ∷ s) =
    let behind = count_from (length h - 1) h s in
    let rest = count_from zero h s in if has_prefix (c ∷ s) h then suc behind else rest

-- strings.Fields, with the word that is read.
unfoldable pub fields_from : Text → Text → List Text
fields_from word [] = if is_empty word then [] else word ∷ []
fields_from word (c ∷ s) =
    let apart = fields_from [] s in
    let grown = fields_from (word ++ (c ∷ [])) s in
    if is_space c then if is_empty word then apart else word ∷ apart else grown

abbrev pub exact : List Text
exact =
    lit "thanks for watching"
    ∷ lit "thanks for listening"
    ∷ lit "bye"
    ∷ lit "goodbye"
    ∷ lit "oh"
    ∷ lit "hmm"
    ∷ lit "uh"
    ∷ lit "um"
    ∷ lit "all right"
    ∷ lit "alright"
    ∷ []

abbrev pub repeats : List Text
repeats =
    lit "thank you"
    ∷ lit "all right"
    ∷ lit "alright"
    ∷ lit "okay"
    ∷ lit "good"
    ∷ lit "yeah"
    ∷ lit "yes"
    ∷ lit "no"
    ∷ lit "day"
    ∷ lit "i'm sorry"
    ∷ lit "sorry"
    ∷ lit "we'll be right back"
    ∷ lit "ladies and gentlemen"
    ∷ lit "i don't know"
    ∷ lit "hello"
    ∷ lit "we're"
    ∷ []

unfoldable pub is_one_of : List Text → Text → Bool
is_one_of [] s = false
is_one_of (h ∷ hs) s = same h s || is_one_of hs s

unfoldable pub repeats_phrase : List Text → Text → Bool
unfolding count_from
repeats_phrase [] lower = false
repeats_phrase (h ∷ hs) lower = leb 3 (count_from 0 h lower) || repeats_phrase hs lower

unfoldable pub count_of : Text → List (Text × ℕ) → ℕ
count_of w counts = elim (get w counts) [ none ↦ 0 | some n ↦ n ]

-- counts[w]++
abbrev pub add_word : Text → List (Text × ℕ) → List (Text × ℕ)
add_word w counts = put w (suc (count_of w counts)) counts

unfoldable pub tally : List Text → List (Text × ℕ) → List (Text × ℕ)
tally [] counts = counts
tally (w ∷ ws) counts = tally ws (add_word w counts)

-- Whether a word has more than 0.4 of all, and 4 at least.
unfoldable pub any_often : ℕ → List (Text × ℕ) → Bool
any_often total [] = false
any_often total ((w, n) ∷ counts) = (leb 4 n && ltb (2 * total) (5 * n)) || any_often total counts

unfoldable pub words_repeat : List Text → Bool
unfolding tally any_often
words_repeat ws = leb 4 (length ws) && any_often (length ws) (tally ws [])

-- The keys of the set of words are those of their counts.
unfoldable pub few_words : List Text → Bool
unfolding tally
few_words ws = leb 10 (length ws) && ltb (4 * length (tally ws [])) (length ws)

unfoldable pub pairs_from : List (Text × ℕ) → List Text → Bool
unfolding count_of
pairs_from counts [] = false
pairs_from counts (w ∷ []) = false
pairs_from counts (v ∷ w ∷ ws) =
    let pair = v ++ lit " " ++ w in
    let rest = pairs_from (add_word pair counts) (w ∷ ws) in
    if leb 4 (suc (count_of pair counts)) then true else rest

unfoldable pub pairs_repeat : List Text → Bool
unfolding pairs_from
pairs_repeat ws = leb 8 (length ws) && pairs_from [] ws

unfoldable pub cleaned : Text → Text
unfolding without
cleaned text = trim_space (without (lit ".,!?'") (to_lower (trim_space text)))

unfoldable pub is_whisper_hallucination : Text → Bool
unfolding cleaned without is_one_of repeats_phrase fields_from words_repeat few_words pairs_repeat
is_whisper_hallucination text =
    let lower = to_lower (trim_space text) in
    let ws = fields_from [] (cleaned text) in
    is_empty (cleaned text)
    || (is_empty (without (lit ". ") lower)
        || (is_one_of exact (cleaned text)
            || (repeats_phrase repeats lower
                || (words_repeat ws || (few_words ws || pairs_repeat ws)))))

-- The masked text, and how many places were masked.
unfoldable pub masked : (Text → Text × ℕ) → Text → Text
masked mask text = if ltb 0 (mask text).1 then (mask text).0 else text

-- The texts that the conversation hears, with that of one more utterance.
unfoldable pub transcribe_and_send :
    (Bytes → Option Text) → (Text → Text × ℕ) → Bytes → List Text → List Text
unfolding is_whisper_hallucination masked
transcribe_and_send whisper mask pcm sent = if is_empty pcm then sent else elim (whisper pcm) [
  | none ↦ sent
  | some raw ↦
      let text = trim_space raw in
      if is_empty text
      then sent
      else if is_whisper_hallucination text
      then sent
      else sent ++ (masked mask text ∷ [])
]

unfoldable pub transcribe_all :
    (Bytes → Option Text) → (Text → Text × ℕ) → List Bytes → List Text → List Text
transcribe_all whisper mask [] sent = sent
transcribe_all whisper mask (pcm ∷ pcms) sent =
    transcribe_all whisper mask pcms (transcribe_and_send whisper mask pcm sent)
