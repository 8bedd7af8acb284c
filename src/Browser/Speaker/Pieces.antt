-- ===== src/Browser/Speaker/Pieces.antt =====
-- The pieces that gateway/webrtc.go sends to an agent's browser.
use voiceagent.Base.{
  All-append, ℕ, zero, suc, ◌<◌, ◌≤◌, ◌≡◌, refl, ap, ◌∙◌, sym, Bool, true, false, List, [], ◌∷◌,
  ◌++◌, append_assoc, append-nil, if◌then◌else◌, leb, length, length-drop, length-take, take, drop,
  All, arith, Bool-cases, inl, inr, subst,
}
use voiceagent.Audio.Pcm.{Bytes}
use voiceagent.Browser.Speaker.{
  frame_16k_size, Ear, mix_whisper, cut_frames, CallerFrame, hear_frame, hear_all,
}

abbrev pub IsPiece : Bytes → Type 0
IsPiece b = length b ≡ frame_16k_size

unfoldable pub joined : List Bytes → Bytes
joined [] = []
joined (b ∷ bs) = b ++ joined bs

-- The sound of the frames that are not dropped.
unfoldable pub heard_sound : List CallerFrame → Bytes
heard_sound [] = []
heard_sound (f ∷ fs) = let rest = heard_sound fs in if f.held then rest else f.pcm ++ rest

joined-append : (xs ys : List Bytes) → joined (xs ++ ys) ≡ joined xs ++ joined ys
unfolding joined
joined-append [] ys = refl
joined-append (b ∷ xs) ys =
    ap (λ r. b ++ r) (joined-append xs ys) ∙ sym (append_assoc b (joined xs) (joined ys))

take-drop : (n : ℕ) (b : Bytes) → take n b ++ drop n b ≡ b
take-drop zero b = refl
take-drop (suc n) [] = refl
take-drop (suc n) (x ∷ b) = ap (λ r. x ∷ r) (take-drop n b)

-- Without whispers the pieces and what is left are the sound.
abbrev Cut : Bytes → Ear × List Bytes → Type 0
Cut sound (e, chunks) =
    (joined chunks ++ e.frame_buf ≡ sound)
    × ((All IsPiece chunks) × ((length e.frame_buf < frame_16k_size) × (e.whispers ≡ [])))

take_all_of : (n : ℕ) (b : Bytes) → leb n (length b) ≡ true → length (take n b) ≡ n
take_all_of n b e = let m = length-take n b in ground arith

drop-shorter :
    (n : ℕ) (b : Bytes) (fuel : ℕ)
    → length b ≤ suc fuel
    → leb (suc n) (length b) ≡ true
    → length (drop (suc n) b) ≤ fuel
drop-shorter n b fuel h e = let m = length-drop (suc n) b in ground arith

short_left : (n : ℕ) (b : Bytes) → leb n (length b) ≡ false → length b < n
short_left n b e = ground arith

abbrev pub quiet : Bytes → Ear
quiet b = record { frame_buf = b; whispers = [] }

cut_frames-Cut : (fuel : ℕ) (b : Bytes) → length b ≤ fuel → Cut b (cut_frames fuel (quiet b))
unfolding cut_frames joined mix_whisper
cut_frames-Cut zero b h = (refl, (tt, (omega (arith, h), refl)))
cut_frames-Cut (suc fuel) b h = elim (Bool-cases (leb frame_16k_size (length b))) [
  | inr e ↦ rw (e) (refl, (tt, (short_left frame_16k_size b e, refl)))
  | inl e ↦
      let (whole, (pieces, (short, none_left))) =
        cut_frames-Cut fuel (drop frame_16k_size b) (drop-shorter 639 b fuel h e) in
      rw (e) (
        append_assoc (take frame_16k_size b) _ _
            ∙ ap (λ r. take frame_16k_size b ++ r) whole
            ∙ take-drop frame_16k_size b,
        ((take_all_of frame_16k_size b e, pieces), (short, none_left)),
      )
]

hear_frame-Cut :
    (f : CallerFrame) (b : Bytes)
    → length b < frame_16k_size
    → Cut (if f.held then b else b ++ f.pcm) (hear_frame f (quiet b))
unfolding hear_frame joined
hear_frame-Cut f b short = elim (Bool-cases f.held) [
  | inl e ↦ rw (e) (refl, (tt, (short, refl)))
  | inr e ↦ rw (e) (cut_frames-Cut (length (b ++ f.pcm)) (b ++ f.pcm) (omega arith))
]

-- The pieces before and after, with what was left between them.
joined_through :
    (xs ys : List Bytes) (left last more sound : Bytes)
    → joined xs ++ left ≡ sound
    → joined ys ++ last ≡ left ++ more
    → joined (xs ++ ys) ++ last ≡ sound ++ more
joined_through xs ys left last more sound h k =
    ap (λ r. r ++ last) (joined-append xs ys)
    ∙ append_assoc (joined xs) (joined ys) last
    ∙ ap (λ r. joined xs ++ r) k
    ∙ sym (append_assoc (joined xs) left more)
    ∙ ap (λ r. r ++ more) h

grow_sound :
    (held : Bool) (b pcm rest : Bytes)
    → (if held then b else b ++ pcm) ++ rest ≡ b ++ (if held then rest else pcm ++ rest)
grow_sound true b pcm rest = refl
grow_sound false b pcm rest = append_assoc b pcm rest

hear_all-Cut :
    (fs : List CallerFrame) (b : Bytes)
    → length b < frame_16k_size
    → Cut (b ++ heard_sound fs) (hear_all fs (quiet b))
unfolding hear_all heard_sound joined
hear_all-Cut [] b short = (sym (append-nil b), (tt, (short, refl)))
hear_all-Cut (f ∷ fs) b short =
    let (e, chunks) = hear_frame f (quiet b) in
    let (whole, (pieces, (less, no_whispers))) = hear_frame-Cut f b short in
    let same_ear : quiet e.frame_buf ≡ e =
      ap (λ ws. record e { whispers = ws }) (sym no_whispers) in
    let rest : Cut (e.frame_buf ++ heard_sound fs) (hear_all fs e) =
      subst (λ x. Cut (e.frame_buf ++ heard_sound fs) (hear_all fs x)) same_ear
        (hear_all-Cut fs e.frame_buf less) in
    (
      joined_through chunks (hear_all fs e).1 e.frame_buf _ (heard_sound fs) _ whole rest.0
          ∙ grow_sound f.held b f.pcm (heard_sound fs),
      (All-append IsPiece chunks _ pieces rest.1.0, rest.1.1),
    )

-- Without whispers, what an agent hears of a caller is cut into pieces of 640 bytes, and the pieces in
-- order and then the bytes that wait, fewer than 640, are what waited at first and then the sound of
-- the frames that were not dropped, where fewer than 640 bytes waited at first.
pub hear_all_heard :
    (fs : List CallerFrame) (b : Bytes)
    → length b < frame_16k_size
    → (joined (hear_all fs (quiet b)).1 ++ (hear_all fs (quiet b)).0.frame_buf
        ≡ b ++ heard_sound fs)
      × ((All IsPiece (hear_all fs (quiet b)).1)
          × (length (hear_all fs (quiet b)).0.frame_buf < frame_16k_size))
hear_all_heard fs b short =
    let (whole, (pieces, (less, _))) = hear_all-Cut fs b short in (whole, (pieces, less))
