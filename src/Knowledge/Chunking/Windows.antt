-- ===== src/Knowledge/Chunking/Windows.antt =====
-- The pieces of a text that gateway/rag.go makes chunks of.
use voiceagent.Base.{
  ℕ, zero, suc, ◌+◌, ◌-◌, ◌/◌, ◌<◌, ◌≤◌, ◌≡◌, refl, ap, ◌∙◌, sym, ℤ, ◌⊎◌, inl, inr, true, List, [],
  ◌∷◌, some, map, leb, length, take, drop, arith, Text, is_empty, trim_space, Bool-cases,
  length-drop, take_all,
}
use voiceagent.Knowledge.Chunking.{
  size_of, overlap_of, break_from, break_at, slice, chunks_from, chunk_text,
}

break_from_bounds :
    (text : Text) (low end rounds : ℕ)
    → low < end
    → low + rounds ≤ end
    → (low < break_from text low end rounds) × (break_from text low end rounds ≤ end + 1)
unfolding break_from
break_from_bounds text low end zero h k = (omega (arith, h), omega arith)
break_from_bounds text low end (suc rounds) h k =
    ground (arith, break_from_bounds text low end rounds h (omega (arith, k)))

-- A stop found is one byte further on.
break_from-low :
    (text : Text) (low end rounds : ℕ)
    → low + 2 ≤ end
    → low + rounds ≤ end
    → low + 2 ≤ break_from text low end rounds
unfolding break_from
break_from-low text low end zero h k = omega (arith, h)
break_from-low text low end (suc rounds) h k =
    ground (arith, break_from-low text low end rounds h (omega (arith, k)))

-- With an overlap, a chunk has to be long enough for the next to start behind it.
abbrev pub Advances : ℕ → Type 0
Advances size = (0 < size) × ((size ≤ 50) ⊎ (98 ≤ size))

break_at_bounds :
    (text : Text) (size start : ℕ)
    → Advances size
    → (start + overlap_of size < break_at text size start)
      × (break_at text size start ≤ start + size + 1)
unfolding break_at overlap_of
break_at_bounds text size start (p, inl small) =
    let found : (start + size / 2 < break_at text size start)
        × (break_at text size start ≤ start + size + 1) =
      break_from_bounds text (start + size / 2) (start + size) (size - size / 2) (omega (arith, p))
        (omega arith) in
    (ground (arith, small, found.0), found.1)
break_at_bounds text size start (p, inr large) =
    let rounds : ℕ = size - size / 2 in
    let found : (start + size / 2 < break_at text size start)
        × (break_at text size start ≤ start + size + 1) =
      break_from_bounds text (start + size / 2) (start + size) rounds (omega (arith, p))
        (omega arith) in
    let low : start + size / 2 + 2 ≤ break_at text size start =
      break_from-low text (start + size / 2) (start + size) rounds (omega (arith, large))
        (omega arith) in
    (ground (arith, large, low), found.1)

abbrev pub Window : Type 0
Window = ℕ × ℕ

-- Every window begins at most 50 bytes before the end of the one before it and ends no earlier than
-- that, has at most one byte more than the size, and the last one ends with the text.
abbrev pub Cover : ℕ → Text → ℕ → List Window → Type 0
Cover size text from [] = from ≡ length text
Cover size text from ((a, b) ∷ ws) =
    (a ≤ from)
    × ((from ≤ a + 50) × ((a < b) × ((from ≤ b) × ((b ≤ a + size + 1) × Cover size text b ws))))

abbrev pub piece : Text → Window → Text
piece text (a, b) = trim_space (slice text a b)

drop_all : (text : Text) (a : ℕ) → drop a text ≡ slice text a (length text)
drop_all text a = sym (take_all (drop a text)) ∙ ap (λ n. take n (drop a text)) (length-drop a text)

overlap_of-le : (size : ℕ) → overlap_of size ≤ 50
unfolding overlap_of
overlap_of-le size = ground arith

module _ (size : ℕ) (text : Text) (advances : Advances size) where
  chunks_from-Cover :
      (fuel start from : ℕ)
      → length text < fuel + start
      → start ≤ from
      → from ≤ start + overlap_of size
      → from ≤ length text
      → (ws : List Window) × (chunks_from fuel size text start ≡ some (map (piece text) ws))
        × Cover size text from ws
  unfolding chunks_from
  chunks_from-Cover zero start from enough a b c = absurd (omega (arith, enough, a, c))
  chunks_from-Cover (suc fuel) start from enough a b c =
      let end : ℕ = break_at text size start in
      let (past, close) = break_at_bounds text size start advances in
      elim (Bool-cases (leb (length text) start)) [
        | inl e ↦ ([], rw (e) refl, ground (arith, e, a, c))
        | inr e ↦ elim (Bool-cases (leb (length text) (start + size))) [
          | inl e' ↦ (
            (start, length text) ∷ [],
            rw (e, e') (ap (λ t. some (trim_space t ∷ [])) (drop_all text start)),
            (
              a,
              (
                omega (arith, b, overlap_of-le size),
                (ground (arith, e), (c, (ground (arith, e'), refl))),
              ),
            ),
          )
          | inr e' ↦
              let (ws, run, cover) =
                chunks_from-Cover fuel (end - overlap_of size) end (omega (arith, enough, past))
                  (omega arith) (omega arith) (ground (arith, close, e')) in
              (
                (start, end) ∷ ws,
                rw (e, e', run) refl,
                (
                  a,
                  (
                    omega (arith, b, overlap_of-le size),
                    (omega (arith, past), (omega (arith, b, past), (close, cover))),
                  ),
                ),
              )
        ]
      ]

empty_length : (s : Text) → is_empty s ≡ true → 0 ≡ length s
empty_length [] h = refl
empty_length (c ∷ s) h = cc

-- A text is cut, with as many rounds as it has bytes and one more, into pieces of at most one byte more
-- than the chunk size that cover it from its first byte to its last, each beginning at most 50 bytes
-- before the end of the one before it; the chunk size is not from 51 to 97.
pub chunk_text-Cover :
    (text : Text) (chunk_size : ℤ)
    → Advances (size_of chunk_size)
    → let trimmed : Text = trim_space text in
      (ws : List Window) × (chunk_text (suc (length trimmed)) text chunk_size
        ≡ some (map (piece trimmed) ws))
      × Cover (size_of chunk_size) trimmed 0 ws
unfolding chunk_text
chunk_text-Cover text chunk_size advances =
    let trimmed : Text = trim_space text in
    elim (Bool-cases (is_empty trimmed)) [
      | inl e ↦ ([], rw (e) refl, empty_length trimmed e)
      | inr e ↦
          let (ws, run, cover) =
            chunks_from-Cover (size_of chunk_size) trimmed advances (suc (length trimmed)) 0 0
              (omega arith) (omega arith) (omega arith) (omega arith) in
          (ws, rw (e) run, cover)
    ]
