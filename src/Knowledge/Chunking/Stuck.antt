-- ===== src/Knowledge/Chunking/Stuck.antt =====
-- A text that gateway/rag.go never stops to cut.
use voiceagent.Base.{
  ℕ, zero, suc, ◌+◌, ◌-◌, ◌/◌, ◌<◌, ◌≤◌, ◌≡◌, refl, ℤ, inl, inr, true, false, [], ◌∷◌, none, leb,
  length, get_or, arith, Text, is_empty, trim_space, Bool-cases,
}
use voiceagent.Knowledge.Chunking.{
  size_of, overlap_of, is_stop, break_from, break_at, chunks_from, chunk_text,
}

-- The last stop above `low` is found.
break_from_last :
    (text : Text) (low end rounds at : ℕ)
    → is_stop (get_or text at 0) ≡ true
    → low < at
    → at ≤ low + rounds
    → ((i : ℕ) → at < i → i ≤ low + rounds → is_stop (get_or text i 0) ≡ false)
    → break_from text low end rounds ≡ at + 1
unfolding break_from
break_from_last text low end zero at stop above within free = absurd (omega (arith, above, within))
break_from_last text low end (suc rounds) at stop above within free =
    elim (Bool-cases (leb at (low + rounds))) [
      | inl e ↦
          let here = free (low + suc rounds) (ground (arith, e)) (omega arith) in
          rw (here) (
            break_from_last text low end rounds at stop above (ground (arith, e))
              (λ i h k. free i h (omega (arith, k))))
      | inr e ↦
          let last : at ≡ low + suc rounds = ground (arith, e, within) in rw (← last, stop) refl
    ]

module _ (text : Text) (size at : ℕ) (long : 50 < size) (more : size < length text)
    (stop : is_stop (get_or text at 0) ≡ true) (above : size / 2 < at) (early : at < 50)
    (free : (i : ℕ) → at < i → i ≤ size → is_stop (get_or text i 0) ≡ false) where
  back_to_start : break_at text size 0 - overlap_of size ≡ 0
  unfolding break_at overlap_of
  back_to_start =
      let found : break_from text (0 + size / 2) (0 + size) (size - size / 2) ≡ at + 1 =
        break_from_last text (0 + size / 2) (0 + size) (size - size / 2) at stop
          (omega (arith, above)) (omega (arith, early, long))
          (λ i h k. free i h (omega (arith, k))) in
      ground (arith, found, early, long)

  chunks_from_stuck : (fuel : ℕ) → chunks_from fuel size text 0 ≡ none
  unfolding chunks_from
  chunks_from_stuck zero = refl
  chunks_from_stuck (suc fuel) =
      rw (back_to_start, chunks_from_stuck fuel) (ground (arith, more, long))

-- With a chunk size from 51 on, a text that is longer than it and whose last stop in the first piece is
-- in the second half of the piece and among its first 50 bytes is cut for ever: the next piece begins
-- where the first did.
pub chunk_text_stuck :
    (fuel : ℕ) (text : Text) (chunk_size : ℤ) (at : ℕ)
    → let trimmed : Text = trim_space text in
      let size : ℕ = size_of chunk_size in
      50 < size
      → size < length trimmed
      → is_stop (get_or trimmed at 0) ≡ true
      → size / 2 < at
      → at < 50
      → ((i : ℕ) → at < i → i ≤ size → is_stop (get_or trimmed i 0) ≡ false)
      → chunk_text fuel text chunk_size ≡ none
unfolding chunk_text
chunk_text_stuck fuel text chunk_size at long more stop above early free =
    let stuck : chunks_from fuel (size_of chunk_size) (trim_space text) 0 ≡ none =
      chunks_from_stuck (trim_space text) (size_of chunk_size) at long more stop above early free
        fuel in
    rw (not_empty (trim_space text) (omega (arith, more))) stuck
  where
    not_empty : (s : Text) → 0 < length s → is_empty s ≡ false
    not_empty [] h = absurd (omega (arith, h))
    not_empty (c ∷ s) h = refl
