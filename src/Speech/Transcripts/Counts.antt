-- ===== src/Speech/Transcripts/Counts.antt =====
-- How often the words and the pairs of words of a transcription of gateway/main.go occur.
use voiceagent.Base.{
  ℕ, suc, ◌+◌, ◌*◌, ◌≤◌, ◌<◌, ◌≡◌, refl, ◌↔◌, inl, inr, true, ◌&&◌, List, [], ◌∷◌, ◌++◌, none,
  if◌then◌else◌, leb, ltb, length, Text, lit, same, same_iff, same_refl, get, put, get-put, arith,
  Bool-cases,
}
use voiceagent.Speech.Transcripts.{
  count_of, add_word, tally, any_often, words_repeat, pairs_from, pairs_repeat,
}

-- How often a text is in a list.
unfoldable pub times : Text → List Text → ℕ
times w [] = 0
times w (v ∷ vs) = let rest = times w vs in if same v w then suc rest else rest

unfoldable pub pairs : List Text → List Text
pairs [] = []
pairs (w ∷ []) = []
pairs (v ∷ w ∷ ws) = (v ++ lit " " ++ w) ∷ pairs (w ∷ ws)

-- A word that occurs at least 4 times and is more than 2 in 5 words.
abbrev pub IsOften : List Text → Text → Type 0
IsOften ws w = (4 ≤ times w ws) × (2 * length ws < 5 * times w ws)

times-length : (w : Text) (ws : List Text) → times w ws ≤ length ws
unfolding times
times-length w [] = omega arith
times-length w (v ∷ vs) = ground (arith, times-length w vs)

count_of-add_word :
    (v w : Text) (counts : List (Text × ℕ))
    → count_of w (add_word v counts)
      ≡ (if same v w then suc (count_of w counts) else count_of w counts)
unfolding count_of
count_of-add_word v w counts =
    ground (arith, get-put v w (suc (count_of v counts)) counts, same_iff v w)

count_of-tally :
    (w : Text) (ws : List Text) (counts : List (Text × ℕ))
    → count_of w (tally ws counts) ≡ count_of w counts + times w ws
unfolding tally times
count_of-tally w [] counts = omega arith
count_of-tally w (v ∷ vs) counts =
    ground (arith, count_of-tally w vs (add_word v counts), count_of-add_word v w counts)

-- A map has each key once.
unfoldable pub HasOnce : List (Text × ℕ) → Type 0
HasOnce [] = Unit
HasOnce ((w, n) ∷ m) = (get w m ≡ none) × HasOnce m

put-HasOnce : (k : Text) (v : ℕ) (m : List (Text × ℕ)) → HasOnce m → HasOnce (put k v m)
unfolding HasOnce put get
put-HasOnce k v [] h = (refl, tt)
put-HasOnce k v ((j, n) ∷ m) (apart, h) = elim (Bool-cases (same j k)) [
  | inl e ↦ rw (e) (ground (arith, apart, same_iff j k, e), h)
  | inr e ↦
      rw (e)
        (ground (arith, apart, get-put k j v m, same_iff j k, same_iff k j, e), put-HasOnce k v m h)
]

tally-HasOnce : (ws : List Text) (m : List (Text × ℕ)) → HasOnce m → HasOnce (tally ws m)
unfolding tally
tally-HasOnce [] m h = h
tally-HasOnce (w ∷ ws) m h = tally-HasOnce ws (add_word w m) (put-HasOnce w _ m h)

module _ (total : ℕ) where
  abbrev IsMany : ℕ → Type 0
  IsMany n = (4 ≤ n) × (2 * total < 5 * n)

  any_often-some :
      (m : List (Text × ℕ))
      → HasOnce m
      → any_often total m ≡ true
      → (w : Text) × IsMany (count_of w m)
  unfolding any_often HasOnce count_of get
  any_often-some [] h e = absurd (ground (arith, e))
  any_often-some ((w, n) ∷ m) (apart, h) e =
      elim (Bool-cases (leb 4 n && ltb (2 * total) (5 * n))) [
        | inl many ↦ (w, ground (arith, many, same_refl w))
        | inr few ↦
            let (v, (four, many)) = any_often-some m h (ground (arith, e, few)) in
            (v, ground (arith, four, many, apart, same_iff w v))
      ]

  any_often-all :
      (m : List (Text × ℕ)) (w : Text) → IsMany (count_of w m) → any_often total m ≡ true
  unfolding any_often count_of get
  any_often-all [] w (four, many) = absurd (omega arith)
  any_often-all ((v, n) ∷ m) w many = elim (Bool-cases (same v w)) [
    | inl e ↦ ground (arith, many, e)
    | inr e ↦ ground (arith, any_often-all m w (ground (arith, many, e)))
  ]

count_of-nil : (w : Text) → count_of w [] ≡ 0
unfolding count_of get
count_of-nil w = refl

pub words_repeat-IsOften : (ws : List Text) → (words_repeat ws ≡ true) ↔ ((w : Text) × IsOften ws w)
unfolding words_repeat
words_repeat-IsOften ws = (
  λ e.
      let (w, (four, many)) =
        any_often-some (length ws) (tally ws []) (tally-HasOnce ws [] (unfold HasOnce in tt))
          (ground (arith, e)) in
      (w, ground (arith, four, many, count_of-tally w ws [], count_of-nil w)),
  λ (w, (four, many)).
      let found : any_often (length ws) (tally ws []) ≡ true =
        any_often-all (length ws) (tally ws []) w
          (ground (arith, four, many, count_of-tally w ws [], count_of-nil w)) in
      ground (arith, four, found, times-length w ws),
)

pairs_from-some :
    (counts : List (Text × ℕ)) (ws : List Text)
    → pairs_from counts ws ≡ true
    → (p : Text) × (4 ≤ count_of p counts + times p (pairs ws))
unfolding pairs_from pairs times
pairs_from-some counts [] e = absurd (ground (arith, e))
pairs_from-some counts (w ∷ []) e = absurd (ground (arith, e))
pairs_from-some counts (v ∷ w ∷ ws) e =
    let pair : Text = v ++ lit " " ++ w in
    elim (Bool-cases (leb 4 (suc (count_of pair counts)))) [
      | inl many ↦ (pair, ground (arith, many, same_refl pair))
      | inr few ↦
          let (p, four) =
            pairs_from-some (add_word pair counts) (w ∷ ws) (ground (arith, e, few)) in
          (p, ground (arith, four, count_of-add_word pair p counts))
    ]

pairs_from-all :
    (counts : List (Text × ℕ)) (ws : List Text)
    → ((p : Text) → count_of p counts < 4)
    → (p : Text) → 4 ≤ count_of p counts + times p (pairs ws)
    → pairs_from counts ws ≡ true
unfolding pairs_from pairs times
pairs_from-all counts [] less p four = absurd (omega (arith, less p))
pairs_from-all counts (w ∷ []) less p four = absurd (omega (arith, less p))
pairs_from-all counts (v ∷ w ∷ ws) less p four =
    let pair : Text = v ++ lit " " ++ w in
    elim (Bool-cases (leb 4 (suc (count_of pair counts)))) [
      | inl many ↦ ground (arith, many)
      | inr few ↦
          let rest =
            pairs_from-all (add_word pair counts) (w ∷ ws)
              (λ q. ground (arith, few, less q, count_of-add_word pair q counts, same_iff pair q)) p
              (ground (arith, four, count_of-add_word pair p counts)) in
          ground (arith, rest)
    ]

pub pairs_repeat-four :
    (ws : List Text)
    → (pairs_repeat ws ≡ true) ↔ ((8 ≤ length ws) × ((p : Text) × (4 ≤ times p (pairs ws))))
unfolding pairs_repeat
pairs_repeat-four ws = (
  λ e.
      let (p, four) = pairs_from-some [] ws (ground (arith, e)) in
      (ground (arith, e), (p, ground (arith, four, count_of-nil p))),
  λ (eight, (p, four)).
      let found =
        pairs_from-all [] ws (λ q. ground (arith, count_of-nil q)) p
          (ground (arith, four, count_of-nil p)) in
      ground (arith, eight, found),
)
