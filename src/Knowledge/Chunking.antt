-- ===== src/Knowledge/Chunking.antt =====
-- The chunks of a document, chunkText of gateway/rag.go. An index is a number of bytes from the start of
-- the trimmed text. A full stop is byte 46 and a new line byte 10.
pub mod Windows
pub mod Stuck
mod Tests
use voiceagent.Base.{
  ℕ, zero, suc, ◌+◌, ◌-◌, ◌/◌, ℤ, pos, negsuc, Bool, ◌||◌, List, [], ◌∷◌, Option, none, some,
  if◌then◌else◌, leb, ltb, ◌==◌, length, get_or, take, drop, Text, is_empty, trim_space,
}

unfoldable pub size_of : ℤ → ℕ
size_of (pos n) = if leb n 0 then 500 else n
size_of (negsuc n) = 500

unfoldable pub overlap_of : ℕ → ℕ
overlap_of size = if leb size 50 then 0 else 50

abbrev pub is_stop : ℕ → Bool
is_stop c = c == 46 || c == 10

-- The search for a stop, down from `low + rounds` to above `low`; the given end without one.
unfoldable pub break_from : Text → ℕ → ℕ → ℕ → ℕ
break_from text low end zero = end
break_from text low end (suc rounds) =
    let rest = break_from text low end rounds in
    if is_stop (get_or text (low + suc rounds) 0) then low + suc rounds + 1 else rest

unfoldable pub break_at : Text → ℕ → ℕ → ℕ
break_at text size start = break_from text (start + size / 2) (start + size) (size - size / 2)

-- text[a:b]
abbrev pub slice : Text → ℕ → ℕ → Text
slice text a b = take (b - a) (drop a text)

-- The loop, with fuel for its rounds; none when the fuel runs out.
unfoldable pub chunks_from : ℕ → ℕ → Text → ℕ → Option (List Text)
chunks_from zero size text start = none
chunks_from (suc fuel) size text start =
    let end = break_at text size start in
    let later = chunks_from fuel size text (end - overlap_of size) in
    if leb (length text) start
    then some []
    else if leb (length text) (start + size)
    then some (trim_space (drop start text) ∷ [])
    else elim later [
      | none ↦ none
      | some chunks ↦ some (trim_space (slice text start end) ∷ chunks)
    ]

unfoldable pub chunk_text : ℕ → Text → ℤ → Option (List Text)
unfolding size_of
chunk_text fuel text chunk_size =
    let trimmed = trim_space text in
    if is_empty trimmed then some [] else chunks_from fuel (size_of chunk_size) trimmed 0
