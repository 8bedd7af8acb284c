-- ===== src/Base/Texts.antt =====
-- A Go string is its list of bytes. `lit` writes one down; it is exact for ASCII.
use Prim.Native.Nat.{ℕ, ◌+◌}
use Prim.Native.Char.{code}
use Prim.Native.String.{String}
use mathlib.Core.Path.{◌≡◌, refl}
use mathlib.Core.Bool.{Bool, true, false, ◌&&◌, ◌||◌}
use mathlib.Core.Logic.{◌↔◌}
use mathlib.Core.Option.{Option, none, some}
use mathlib.Core.List.{List, [], ◌∷◌, ◌++◌, reverse, map}
use native.Mathlib.Omega.{arith}
use voiceagent.Base.Tests.{◌==◌, leb, if◌then◌else◌}

abbrev pub Text : Type 0
Text = List ℕ

abbrev pub lit : String → Text
lit String.[] = []
lit (String.◌∷◌ c s) = code c ∷ lit s

-- s == t
unfoldable pub same : Text → Text → Bool
same [] [] = true
same (a ∷ s) (b ∷ t) = (a == b) && same s t
same (a ∷ s) [] = false
same [] (b ∷ t) = false

abbrev pub is_empty {ℓ} : {A : Type ℓ} → List A → Bool
is_empty [] = true
is_empty (x ∷ xs) = false

same→eq : (s t : Text) → same s t ≡ true → s ≡ t
unfolding same
same→eq [] [] h = refl
same→eq (a ∷ s) (b ∷ t) h = ground (arith, same→eq s t)
same→eq (a ∷ s) [] h = cc
same→eq [] (b ∷ t) h = cc

pub same_refl : (s : Text) → same s s ≡ true
unfolding same
same_refl [] = refl
same_refl (a ∷ s) = ground (arith, same_refl s)

pub same_iff : (s t : Text) → (same s t ≡ true) ↔ (s ≡ t)
same_iff s t = (same→eq s t, λ e. ground (arith, same_refl s))

-- strings.HasPrefix(s, p)
unfoldable pub has_prefix : Text → Text → Bool
has_prefix s [] = true
has_prefix [] (b ∷ p) = false
has_prefix (a ∷ s) (b ∷ p) = (a == b) && has_prefix s p

pub has_prefix-append : (p s : Text) → has_prefix (p ++ s) p ≡ true
unfolding has_prefix
has_prefix-append [] s = refl
has_prefix-append (b ∷ p) s = ground (arith, has_prefix-append p s)

-- strings.TrimSpace, for ASCII.
abbrev pub is_space : ℕ → Bool
is_space c = c == 32 || (leb 9 c && leb c 13)

unfoldable pub trim_left : Text → Text
trim_left [] = []
trim_left (c ∷ s) = if is_space c then trim_left s else c ∷ s

unfoldable pub trim_space : Text → Text
unfolding trim_left
trim_space s = reverse (trim_left (reverse (trim_left s)))

-- strings.TrimPrefix(s, p)
unfoldable pub trim_prefix : Text → Text → Text
trim_prefix s [] = s
trim_prefix [] (b ∷ p) = []
trim_prefix (a ∷ s) (b ∷ p) =
    let rest = trim_prefix s p in if (a == b) && has_prefix s p then rest else a ∷ s

pub trim_prefix-append : (p s : Text) → trim_prefix (p ++ s) p ≡ s
unfolding trim_prefix
trim_prefix-append [] [] = refl
trim_prefix-append [] (a ∷ s) = refl
trim_prefix-append (b ∷ p) s = ground (arith, has_prefix-append p s, trim_prefix-append p s)

-- strings.Trim(s, c) for one byte c.
unfoldable pub trim_byte_left : ℕ → Text → Text
trim_byte_left c [] = []
trim_byte_left c (a ∷ s) = if a == c then trim_byte_left c s else a ∷ s

unfoldable pub trim_byte : ℕ → Text → Text
unfolding trim_byte_left
trim_byte c s = reverse (trim_byte_left c (reverse (trim_byte_left c s)))

-- The text before the first byte c and the text after it, as strings.Index finds it; none without c.
unfoldable pub cut : ℕ → Text → Option (Text × Text)
cut c [] = none
cut c (a ∷ s) =
    let rest = cut c s in
    if a == c
    then some ([], s)
    else elim rest [ none ↦ none | some (before, after) ↦ some (a ∷ before, after) ]

-- strings.Split(s, c) for one byte c.
unfoldable pub split : ℕ → Text → List Text
split c [] = [] ∷ []
split c (a ∷ s) =
    let rest = split c s in
    if a == c
    then [] ∷ rest
    else elim rest [ [] ↦ (a ∷ []) ∷ [] | part ∷ parts ↦ (a ∷ part) ∷ parts ]

-- strings.TrimSuffix(s, c) for one byte c.
unfoldable pub trim_suffix : ℕ → Text → Text
trim_suffix c [] = []
trim_suffix c (a ∷ []) = if a == c then [] else a ∷ []
trim_suffix c (a ∷ b ∷ s) = a ∷ trim_suffix c (b ∷ s)

-- strings.Contains(s, p)
unfoldable pub contains : Text → Text → Bool
contains [] p = is_empty p
contains (a ∷ s) p = let rest = contains s p in if has_prefix (a ∷ s) p then true else rest

-- strings.ToLower, for ASCII.
abbrev pub to_lower : Text → Text
to_lower = map (λ c. if leb 65 c && leb c 90 then c + 32 else c)
