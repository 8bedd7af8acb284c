-- ===== src/Calls/Routing/Arrays.antt =====
-- Arrays of PostgreSQL as gateway/db.go writes and gateway/routing.go reads them.
use voiceagent.Base.{
  ℕ, ◌≡◌, refl, ap, ◌∙◌, false, ◌||◌, List, [], ◌∷◌, ◌++◌, ◌==◌, All, arith, Text, lit, same,
  is_empty, NotSpace, All-weaken, All-append, trim_space_id, trim_byte_id, trim_suffix-append,
  split-append, split_one, trim_prefix, split, has_prefix,
}
use voiceagent.Calls.Routing.{keep_parts, parse_postgres_array, join_comma, array_to_postgres}

-- No comma, no double quote, and no white space at all.
abbrev pub IsPlainByte : ℕ → Type 0
IsPlainByte c = ((c == 44) ≡ false) × (((c == 34) ≡ false) × NotSpace c)

abbrev pub IsPlain : Text → Type 0
IsPlain w = (is_empty w ≡ false) × All IsPlainByte w

split-join_comma :
    (w : Text) (ws : List Text) → All IsPlain (w ∷ ws) → split 44 (join_comma (w ∷ ws)) ≡ w ∷ ws
unfolding join_comma
split-join_comma w [] (h, hs) = split_one w (All-weaken IsPlainByte _ (λ c p. p.0) w h.1)
split-join_comma w (v ∷ ws) (h, hs) =
    split-append w (join_comma (v ∷ ws)) (All-weaken IsPlainByte _ (λ c p. p.0) w h.1)
    ∙ ap (λ r. w ∷ r) (split-join_comma v ws hs)

keep_parts_plain : (ws : List Text) → All IsPlain ws → keep_parts ws ≡ ws
unfolding keep_parts
keep_parts_plain [] h = refl
keep_parts_plain (w ∷ ws) ((full, plain), hs) =
    rw
      (
        trim_space_id w (All-weaken IsPlainByte NotSpace (λ c p. p.1.1) w plain),
        trim_byte_id 34 w (All-weaken IsPlainByte _ (λ c p. p.1.0) w plain),
        full,
        keep_parts_plain ws hs,
      )
      refl

join_comma-NotSpace : (ws : List Text) → All IsPlain ws → All NotSpace (join_comma ws)
unfolding join_comma
join_comma-NotSpace [] h = tt
join_comma-NotSpace (w ∷ []) (h, hs) = All-weaken IsPlainByte NotSpace (λ c p. p.1.1) w h.1
join_comma-NotSpace (w ∷ v ∷ ws) (h, hs) =
    All-append NotSpace w _ (All-weaken IsPlainByte NotSpace (λ c p. p.1.1) w h.1)
      (ground arith, join_comma-NotSpace (v ∷ ws) hs)

join_comma-full :
    (w : Text) (ws : List Text) → is_empty w ≡ false → is_empty (join_comma (w ∷ ws)) ≡ false
unfolding join_comma
join_comma-full [] ws h = absurd (ground (arith, h))
join_comma-full (c ∷ w) [] h = refl
join_comma-full (c ∷ w) (v ∷ ws) h = refl

-- A text in braces is none of the texts that stand for no array.
in_braces :
    (j : Text)
    → is_empty j ≡ false
    → (same (123 ∷ (j ++ (125 ∷ []))) (lit "{}") || same (123 ∷ (j ++ (125 ∷ []))) (lit "NULL"))
      ≡ false
unfolding same
in_braces [] h = absurd (ground (arith, h))
in_braces (c ∷ []) h = ground arith
in_braces (c ∷ d ∷ j) h = ground arith

-- What arrayToPostgres writes of words that are not empty and hold no comma, double quote or white
-- space, parsePostgresArray reads back, words with braces included.
pub parse_postgres_array-array_to_postgres :
    (ws : List Text) → All IsPlain ws → parse_postgres_array (array_to_postgres ws) ≡ ws
unfolding parse_postgres_array array_to_postgres
parse_postgres_array-array_to_postgres [] h =
    rw (trim_space_id (lit "{}") (ground arith, (ground arith, tt))) (unfold same in refl)
parse_postgres_array-array_to_postgres (w ∷ ws) h =
    let j : Text = join_comma (w ∷ ws) in
    let t : Text = 123 ∷ (j ++ (125 ∷ [])) in
    let inner : trim_prefix t (lit "{") ≡ j ++ (125 ∷ []) = unfold trim_prefix has_prefix in refl in
    let spaceless : All NotSpace t = (
      ground arith,
      All-append NotSpace j (125 ∷ []) (join_comma-NotSpace (w ∷ ws) h) (ground arith, tt),
    ) in
    rw
      (
        trim_space_id t spaceless,
        in_braces j (join_comma-full w ws h.0.0),
        inner,
        trim_suffix-append 125 j,
        split-join_comma w ws h,
      )
      (keep_parts_plain (w ∷ ws) h)
