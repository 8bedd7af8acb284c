-- ===== src/Base/Trims.antt =====
-- What the trimming of a text leaves as it is.
use Prim.Native.Nat.{ℕ}
use mathlib.Core.List.{Permᴰ, reverse, reverse-reverse, List, [], ◌∷◌, ◌++◌}
use mathlib.Core.List.Permᴰ
use mathlib.Core.Path.{◌≡◌, refl, ap, subst}
use mathlib.Core.Bool.{false}
use native.Mathlib.Omega.{arith}
use voiceagent.Base.Tests.{◌==◌}
use voiceagent.Base.Lists.{All}
use voiceagent.Base.Texts.{
  Text, is_space, trim_left, trim_space, trim_byte, trim_byte_left, trim_suffix, split,
}

pub All-Permᴰ {ℓ κ} :
    {A : Type ℓ} (P : A → Type κ) {xs ys : List A} → Permᴰ xs ys → All P xs → All P ys
All-Permᴰ P Permᴰ.nil ps = tt
All-Permᴰ P (Permᴰ.cons e d) ps = (subst P e ps.0, All-Permᴰ P d ps.1)
All-Permᴰ P (Permᴰ.swap e e') ps = (subst P e' ps.1.0, (subst P e ps.0, ps.1.1))
All-Permᴰ P (Permᴰ.trans d d') ps = All-Permᴰ P d' (All-Permᴰ P d ps)

abbrev pub NotSpace : ℕ → Type 0
NotSpace c = is_space c ≡ false

pub All-weaken : (P Q : ℕ → Type 0) (f : (c : ℕ) → P c → Q c) (s : Text) → All P s → All Q s
All-weaken P Q f [] h = tt
All-weaken P Q f (c ∷ s) (h, hs) = (f c h, All-weaken P Q f s hs)

pub All-append {ℓ} :
    {A : Type ℓ} (P : A → Type 0) (s t : List A) → All P s → All P t → All P (s ++ t)
All-append P [] t h k = k
All-append P (c ∷ s) t (h, hs) k = (h, All-append P s t hs k)

pub All-reverse : (P : ℕ → Type 0) (s : Text) → All P s → All P (reverse s)
All-reverse P s h = All-Permᴰ P (Permᴰ.symm (Permᴰ.reverse s)) h

trim_left_id : (s : Text) → All NotSpace s → trim_left s ≡ s
unfolding trim_left
trim_left_id [] h = refl
trim_left_id (c ∷ s) (h, hs) = ground (arith, h)

pub trim_space_id : (s : Text) → All NotSpace s → trim_space s ≡ s
unfolding trim_space
trim_space_id s h =
    rw (trim_left_id s h, trim_left_id (reverse s) (All-reverse NotSpace s h)) (reverse-reverse s)

trim_byte_left_id : (b : ℕ) (s : Text) → All (λ c. (c == b) ≡ false) s → trim_byte_left b s ≡ s
unfolding trim_byte_left
trim_byte_left_id b [] h = refl
trim_byte_left_id b (c ∷ s) (h, hs) = ground (arith, h)

pub trim_byte_id : (b : ℕ) (s : Text) → All (λ c. (c == b) ≡ false) s → trim_byte b s ≡ s
unfolding trim_byte
trim_byte_id b s h =
    rw (trim_byte_left_id b s h, trim_byte_left_id b (reverse s) (All-reverse _ s h))
      (reverse-reverse s)

pub trim_suffix-append : (b : ℕ) (s : Text) → trim_suffix b (s ++ (b ∷ [])) ≡ s
unfolding trim_suffix
trim_suffix-append b [] = ground arith
trim_suffix-append b (c ∷ []) = ground arith
trim_suffix-append b (c ∷ d ∷ s) = ap (λ r. c ∷ r) (trim_suffix-append b (d ∷ s))

pub split-append :
    (w rest : Text) → All (λ c. (c == 44) ≡ false) w → split 44 (w ++ 44 ∷ rest) ≡ w ∷ split 44 rest
unfolding split
split-append [] rest h = refl
split-append (c ∷ w) rest (h, hs) = ground (arith, h, split-append w rest hs)

pub split_one : (w : Text) → All (λ c. (c == 44) ≡ false) w → split 44 w ≡ w ∷ []
unfolding split
split_one [] h = refl
split_one (c ∷ w) (h, hs) = ground (arith, h, split_one w hs)
