-- ===== src/Access/Robocall/Phrases.antt =====
-- The phrases that gateway/robocall.go can hear in a transcript.
use voiceagent.Base.{
  ◌≡◌, refl, ap, Bool, true, false, ◌&&◌, ◌||◌, List, [], ◌∷◌, ◌++◌, if◌then◌else◌, leb, arith,
  Text, has_prefix, contains, to_lower,
}
use voiceagent.Access.Robocall.{
  FloatOps, RobocallDetector, Keyword, match_phrases, robocall_keywords, classified,
  classify_transcript, add_keyword,
}

-- Some byte of the phrase is an upper case letter.
unfoldable pub has_upper : Text → Bool
has_upper [] = false
has_upper (c ∷ s) = (leb 65 c && leb c 90) || has_upper s

has_prefix-to_lower : (s p : Text) → has_upper p ≡ true → has_prefix (to_lower s) p ≡ false
unfolding has_prefix has_upper
has_prefix-to_lower s [] h = cc
has_prefix-to_lower [] (b ∷ p) h = refl
has_prefix-to_lower (a ∷ s) (b ∷ p) h = ground (arith, h, has_prefix-to_lower s p)

contains-to_lower : (s p : Text) → has_upper p ≡ true → contains (to_lower s) p ≡ false
unfolding contains has_upper
contains-to_lower [] [] h = cc
contains-to_lower [] (b ∷ p) h = refl
contains-to_lower (a ∷ s) p h =
    ground (arith, has_prefix-to_lower (a ∷ s) p h, contains-to_lower s p h)

module _ (F : FloatOps) where
  match_phrases-extend :
      (lower : Text) (ks : List (Keyword F.Float)) (k : Keyword F.Float)
      (so_far : F.Float × List Text)
      → contains lower k.phrase ≡ false
      → match_phrases F lower (ks ++ (k ∷ [])) so_far ≡ match_phrases F lower ks so_far
  unfolding match_phrases
  match_phrases-extend lower [] k (score, matched) h = ground (arith, h)
  match_phrases-extend lower (x ∷ ks) k (score, matched) h =
      match_phrases-extend lower ks k
        (if contains lower x.phrase
          then (F.add score x.weight, matched ++ (x.phrase ∷ []))
          else (score, matched))
        h

-- A phrase with an upper case letter is added in vain: every transcript is classified as without it.
pub classify_transcript-add_keyword :
    (F : FloatOps) (text phrase : Text) (weight : F.Float) (d : RobocallDetector F.Float)
    → has_upper phrase ≡ true
    → classify_transcript F text (add_keyword F phrase weight d) ≡ classify_transcript F text d
unfolding classify_transcript add_keyword
classify_transcript-add_keyword F text phrase weight d h =
    let lower = to_lower text in
    ap (classified F) (
      match_phrases-extend F lower d.custom_keywords (record { phrase = phrase; weight = weight })
        (match_phrases F lower (robocall_keywords F) (F.tenths 0, []))
        (contains-to_lower text phrase h))
