-- ===== src/Audio/G711/Resample.antt =====
-- The 8 kHz to 16 kHz step `ResampleG711toL16` of gateway/codec.go.
use voiceagent.Base.{
  ◌*◌, ◌≡◌, refl, ap, List, [], ◌∷◌, map, arith, ℤ, ◌≤ℤ◌, ◌+ℤ◌, ◌-ℤ◌, length, length-map, All, Text,
  inl, inr, ◌⊎◌,
}
use voiceagent.Audio.Pcm.{
  Bytes, InInt16, IsByte, samples, put_samples, samples-put_samples, length-put_samples,
  length-samples,
}
use voiceagent.Audio.G711.{average, head_or, upsample, resample_g711_to_l16, g711_to_l16_ratio}
use voiceagent.Audio.G711.Decode.{IsG711Name, table_of, transcode_frame-G711, table-InInt16}

pub length-upsample : (ss : List ℤ) → length (upsample ss) ≡ length ss * 2
unfolding upsample
length-upsample [] = omega arith
length-upsample (s ∷ ss) = omega (arith, length-upsample ss)

-- A decoded G.711 frame grows by exactly the ratio that G711ToL16Ratio returns.
pub length-resample_g711_to_l16 :
    (g711 : Bytes) (codec : Text)
    → IsG711Name codec
    → length (resample_g711_to_l16 g711 codec) ≡ g711_to_l16_ratio * length g711
unfolding resample_g711_to_l16 g711_to_l16_ratio
length-resample_g711_to_l16 g711 codec h = rw (transcode_frame-G711 g711 codec h) (
    omega (
      arith,
      length-put_samples (upsample (samples (put_samples (map (table_of codec) g711)))),
      length-upsample (samples (put_samples (map (table_of codec) g711))),
      length-samples (put_samples (map (table_of codec) g711)),
      length-put_samples (map (table_of codec) g711),
      length-map g711 (table_of codec),
    ))

-- Between two numbers, in either order.
abbrev pub Between : ℤ → ℤ → ℤ → Type 0
Between s t v = (s ≤ℤ v) × (v ≤ℤ t) ⊎ (t ≤ℤ v) × (v ≤ℤ s)

average-Between : (s t : ℤ) → Between s t (average s t)
unfolding average ◌+ℤ◌ ◌-ℤ◌
average-Between s t = ground arith

-- Every second sample, from the first.
abbrev pub evens : List ℤ → List ℤ
evens [] = []
evens (s ∷ []) = s ∷ []
evens (s ∷ (v ∷ rest)) = s ∷ evens rest

-- Each sample in between lies between the two that it joins.
abbrev pub Interpolates : List ℤ → Type 0
Interpolates [] = Unit
Interpolates (s ∷ []) = ⊥
Interpolates (s ∷ (v ∷ rest)) = Between s (head_or s rest) v × Interpolates rest

head_or-upsample : (s : ℤ) (ss : List ℤ) → head_or s (upsample ss) ≡ head_or s ss
unfolding upsample
head_or-upsample s [] = refl
head_or-upsample s (t ∷ ts) = refl

upsample-evens : (ss : List ℤ) → evens (upsample ss) ≡ ss
unfolding upsample
upsample-evens [] = refl
upsample-evens (s ∷ ss) = ap (◌∷◌ s) (upsample-evens ss)

upsample-Interpolates : (ss : List ℤ) → Interpolates (upsample ss)
unfolding upsample
upsample-Interpolates [] = tt
upsample-Interpolates (s ∷ ss) =
    (rw (head_or-upsample s ss) (average-Between s (head_or s ss)), upsample-Interpolates ss)

Between-InInt16 : (s t v : ℤ) → InInt16 s → InInt16 t → Between s t v → InInt16 v
Between-InInt16 s t v hs ht (inl h) = omega arith
Between-InInt16 s t v hs ht (inr h) = omega arith

pub upsample-InInt16 : (ss : List ℤ) → All InInt16 ss → All InInt16 (upsample ss)
unfolding upsample
upsample-InInt16 [] h = tt
upsample-InInt16 (s ∷ []) (a, b) = (a, (Between-InInt16 s s _ a a (average-Between s s), tt))
upsample-InInt16 (s ∷ (t ∷ ts)) (a, b) =
    (a, (Between-InInt16 s t _ a b.0 (average-Between s t), upsample-InInt16 (t ∷ ts) b))

pub decoded-InInt16 :
    (codec : Text) (g711 : Bytes) → All IsByte g711 → All InInt16 (map (table_of codec) g711)
decoded-InInt16 codec [] h = tt
decoded-InInt16 codec (b ∷ bs) (a, r) =
    (ground (arith, table-InInt16 b a), decoded-InInt16 codec bs r)

-- Of a frame of G.711 bytes, the 16 kHz frame holds the decoded samples at its even places, and
-- between each and the next a sample that lies between the two.
pub resample_g711_to_l16-Interpolates :
    (g711 : Bytes) (codec : Text)
    → IsG711Name codec
    → All IsByte g711
    → let out = samples (resample_g711_to_l16 g711 codec) in
      (evens out ≡ map (table_of codec) g711) × Interpolates out
unfolding resample_g711_to_l16
resample_g711_to_l16-Interpolates g711 codec h bytes =
    rw
      (
        transcode_frame-G711 g711 codec h,
        samples-put_samples decoded range,
        samples-put_samples (upsample decoded) (upsample-InInt16 decoded range),
      )
      (upsample-evens decoded, upsample-Interpolates decoded)
  where
    decoded : List ℤ
    decoded = map (table_of codec) g711

    range : All InInt16 decoded
    range = decoded-InInt16 codec g711 bytes
