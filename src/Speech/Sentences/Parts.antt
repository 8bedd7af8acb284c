-- ===== src/Speech/Sentences/Parts.antt =====
-- What the sentences of gateway/main.go keep of the text.
use mathlib.Core.List.{reverse, reverse-cons, reverse-reverse}
use voiceagent.Base.{
  ℕ, zero, suc, ◌≤◌, ◌<◌, ◌≡◌, refl, ap, ◌∙◌, sym, true, ◌&&◌, List, [], ◌∷◌, ◌++◌, append-nil,
  none, some, if◌then◌else◌, length, arith, Text, is_empty, is_space, trim_left, trim_space,
  if_elim, Bool-cases, Option-cases, inl, inr,
}
use voiceagent.Speech.Sentences.{
  is_mark, ends_here, cut_sentence, keep_full, split_from, split_sentences,
}

-- The text without its white space.
unfoldable pub letters : Text → Text
letters [] = []
letters (c ∷ s) = let rest = letters s in if is_space c then rest else c ∷ rest

unfoldable pub joined : List Text → Text
joined [] = []
joined (s ∷ ss) = s ++ joined ss

pub letters-append : (s t : Text) → letters (s ++ t) ≡ letters s ++ letters t
unfolding letters
letters-append [] t = refl
letters-append (c ∷ s) t = ground (arith, letters-append s t)

letters-trim_left : (s : Text) → letters (trim_left s) ≡ letters s
unfolding letters trim_left
letters-trim_left [] = refl
letters-trim_left (c ∷ s) = ground (arith, letters-trim_left s)

letters-reverse : (s : Text) → letters (reverse s) ≡ reverse (letters s)
unfolding letters
letters-reverse [] = refl
letters-reverse (c ∷ s) =
    ap letters (reverse-cons c s)
    ∙ letters-append (reverse s) (c ∷ [])
    ∙ elim (Bool-cases (is_space c)) [
      | inl e ↦ rw (e, letters-reverse s) (append-nil (reverse (letters s)))
      | inr e ↦ rw (e, letters-reverse s) (sym (reverse-cons c (letters s)))
    ]

letters-trim_space : (s : Text) → letters (trim_space s) ≡ letters s
unfolding trim_space
letters-trim_space s =
    letters-reverse (trim_left (reverse (trim_left s)))
    ∙ ap reverse (letters-trim_left (reverse (trim_left s)) ∙ letters-reverse (trim_left s))
    ∙ reverse-reverse (letters (trim_left s))
    ∙ letters-trim_left s

empty_text : (s : Text) → is_empty s ≡ true → s ≡ []
empty_text [] h = refl
empty_text (c ∷ s) h = cc

letters-keep_full :
    (s : Text) (rest : List Text)
    → letters (joined (keep_full s rest)) ≡ letters s ++ letters (joined rest)
unfolding joined
letters-keep_full s rest = elim (Bool-cases (is_empty (trim_space s))) [
  | inl e ↦
      let none_left : letters s ≡ [] =
        sym (letters-trim_space s)
        ∙ ap letters (empty_text (trim_space s) e)
        ∙ (unfold letters in refl) in
      rw (e, none_left) refl
  | inr e ↦ rw (e) (
      letters-append (trim_space s) (joined rest)
      ∙ ap (λ t. t ++ letters (joined rest)) (letters-trim_space s))
]

cut_sentence-parts :
    (s before after : Text)
    → cut_sentence s ≡ some (before, after)
    → (before ++ after ≡ s) × (length after < length s)
unfolding cut_sentence
cut_sentence-parts [] before after h = cc
cut_sentence-parts (c ∷ s) before after h = elim (Bool-cases (is_mark c && ends_here s)) [
  | inl e ↦ (ground (arith, h, e), ground (arith, h, e))
  | inr e ↦ elim (Option-cases (cut_sentence s)) [
    | inl n ↦ ground (arith, h, e, n)
    | inr ((b, a), n) ↦
        let (whole, less) = cut_sentence-parts s b a n in
        let is_b : c ∷ b ≡ before = ground (arith, h, e, n) in
        let is_a : a ≡ after = ground (arith, h, e, n) in
        rw (← is_b, ← is_a) (ap (λ r. c ∷ r) whole, omega (arith, less))
  ]
]

module _ (n : ℕ) (s : Text) where
  split_from-none : cut_sentence s ≡ none → split_from (suc n) s ≡ keep_full s []
  unfolding split_from
  split_from-none e = ground (arith, e)

  split_from-some :
      (before after : Text)
      → cut_sentence s ≡ some (before, after)
      → split_from (suc n) s ≡ keep_full before (split_from n after)
  unfolding split_from
  split_from-some before after e = ground (arith, e)

letters_last : (s : Text) → letters (joined (keep_full s [])) ≡ letters s
letters_last s = letters-keep_full s [] ∙ (unfold joined letters in append-nil (letters s))

split_from-letters : (n : ℕ) (s : Text) → letters (joined (split_from n s)) ≡ letters s
split_from-letters zero s = unfold split_from in letters_last s
split_from-letters (suc n) s = elim (Option-cases (cut_sentence s)) [
  | inl e ↦ rw (split_from-none n s e) (letters_last s)
  | inr ((before, after), e) ↦ rw (split_from-some n s before after e) (
      letters-keep_full before (split_from n after)
      ∙ ap (λ t. letters before ++ t) (split_from-letters n after)
      ∙ sym (letters-append before after)
      ∙ ap letters (cut_sentence-parts s before after e).0)
]

-- A loop with as many rounds as the text has bytes ends by itself: more of them change nothing.
pub split_from_enough :
    (n m : ℕ) (s : Text) → length s ≤ n → length s ≤ m → split_from n s ≡ split_from m s
split_from_enough zero zero s hn hm = refl
split_from_enough zero (suc m) [] hn hm = unfold split_from cut_sentence in refl
split_from_enough zero (suc m) (c ∷ s) hn hm = absurd (omega arith)
split_from_enough (suc n) zero [] hn hm = unfold split_from cut_sentence in refl
split_from_enough (suc n) zero (c ∷ s) hn hm = absurd (omega arith)
split_from_enough (suc n) (suc m) s hn hm = elim (Option-cases (cut_sentence s)) [
  | inl e ↦ split_from-none n s e ∙ sym (split_from-none m s e)
  | inr ((before, after), e) ↦
      let less = (cut_sentence-parts s before after e).1 in
      split_from-some n s before after e
      ∙ ap (keep_full before)
          (split_from_enough n m after (omega (arith, hn, less)) (omega (arith, hm, less)))
      ∙ sym (split_from-some m s before after e)
]

-- The sentences of a reply, put together, are the reply but for white space, each in its place.
pub split_sentences-letters : (text : Text) → letters (joined (split_sentences text)) ≡ letters text
unfolding split_sentences
split_sentences-letters text =
    if_elim (λ ss. letters (joined ss) ≡ letters text) _ _
      (is_empty (split_from (length text) text)) (λ e. letters_last text)
      (λ e. split_from-letters (length text) text)
