-- ===== src/Speech/Segments/Limits.antt =====
-- How much sound gateway/main.go keeps and sends at once.
use voiceagent.Base.{
  ℕ, ◌+◌, ◌<◌, ◌≤◌, ◌≡◌, refl, false, List, [], ◌∷◌, ◌++◌, Option, none, some, ltb, leb, length,
  length-append, All, arith, if_elim,
}
use voiceagent.Audio.Pcm.{Bytes}
use voiceagent.Speech.Segments.{
  SoundFrame, Vad, silence_limit, max_bytes, warmup_frames, reset, new_vad, fall_silent, listen,
  cap, vad_step, add_sent, run_vad,
}

-- At most 8 seconds are kept, less than 600 ms of silence is counted, and nothing is kept or counted out
-- of speech.
abbrev pub Calm : Vad → Type 0
Calm v =
    (length v.audio_buf ≤ max_bytes)
    × ((v.silent_frames < silence_limit)
        × (v.speech_active ≡ false → (length v.audio_buf ≡ 0) × (v.silent_frames ≡ 0)))

abbrev SentShort : ℕ → Option Bytes → Type 0
SentShort n none = Unit
SentShort n (some u) = length u ≤ n

abbrev Fine : ℕ → Vad × Option Bytes → Type 0
Fine n (v, sent) = Calm v × SentShort n sent

reset-Calm : (v : Vad) → Calm (reset v)
reset-Calm v = (omega arith, (omega arith, λ off. (refl, refl)))

-- The state between listening and the guard: at most one frame more than 8 seconds.
abbrev Near : ℕ → Vad × Option Bytes → Type 0
Near size (v, sent) =
    (length v.audio_buf ≤ max_bytes + size)
    × ((v.silent_frames < silence_limit)
        × ((v.speech_active ≡ false → (length v.audio_buf ≡ 0) × (v.silent_frames ≡ 0))
            × SentShort (max_bytes + size) sent))

module _ (size : ℕ) where
  listen-Near : (f : SoundFrame) (v : Vad) → length f.pcm ≤ size → Calm v → Near size (listen f v)
  unfolding listen fall_silent
  listen-Near f v h (a, (b, c)) =
      let grown : length (v.audio_buf ++ f.pcm) ≤ max_bytes + size =
        omega (arith, a, h, length-append v.audio_buf f.pcm) in
      if_elim (Near size) _ _ f.loud (λ e. (grown, (omega arith, ((λ off. cc), tt))))
        (λ e.
          if_elim (Near size) _ _ v.speech_active
            (λ e'.
              if_elim (Near size) _ _ (leb silence_limit (v.silent_frames + 1))
                (λ e''. (omega arith, (omega arith, ((λ off. (refl, refl)), grown))))
                (λ e''. (grown, (ground (arith, e''), ((λ off. cc), tt)))))
            (λ e'. (omega (arith, a), (b, (c, tt)))))

  cap-Fine : (r : Vad × Option Bytes) → Near size r → Fine (max_bytes + size) (cap r)
  unfolding cap
  cap-Fine (v, sent) (a, (b, (c, d))) =
      if_elim (Fine (max_bytes + size)) _ _ (ltb max_bytes (length v.audio_buf))
        (λ e. (
          reset-Calm v,
          if_elim (SentShort (max_bytes + size)) _ _ v.speech_active (λ e'. a) (λ e'. d),
        ))
        (λ e. ((ground (arith, e), (b, c)), d))

  vad_step-Fine :
      (f : SoundFrame) (v : Vad)
      → length f.pcm ≤ size
      → Calm v
      → Fine (max_bytes + size) (vad_step f v)
  unfolding vad_step
  vad_step-Fine f v h calm =
      let v' : Vad = record v { frame_count = v.frame_count + 1 } in
      if_elim (Fine (max_bytes + size)) _ _ (leb v'.frame_count warmup_frames) (λ e. (calm, tt))
        (λ e.
          if_elim (Fine (max_bytes + size)) _ _ f.playing
            (λ e'.
              if_elim (Fine (max_bytes + size)) _ _ v.speech_active (λ e''. (reset-Calm v', tt))
                (λ e''. (calm, tt)))
            (λ e'. cap-Fine (listen f v') (listen-Near f v' h calm)))

add_sent-All :
    (n : ℕ) (sent : Option Bytes) (rest : List Bytes)
    → SentShort n sent
    → All (λ u. length u ≤ n) rest
    → All (λ u. length u ≤ n) (add_sent sent rest)
add_sent-All n none rest h hs = hs
add_sent-All n (some u) rest h hs = (h, hs)

run_vad_fine :
    (size : ℕ) (fs : List SoundFrame) (v : Vad)
    → All (λ f. length f.pcm ≤ size) fs
    → Calm v
    → Calm (run_vad fs v).0 × All (λ u. length u ≤ max_bytes + size) (run_vad fs v).1
unfolding run_vad
run_vad_fine size [] v h calm = (calm, tt)
run_vad_fine size (f ∷ fs) v (h, hs) calm =
    let (now, sent) = vad_step-Fine size f v h calm in
    let (end, rest) = run_vad_fine size fs (vad_step f v).0 hs now in
    (
      end,
      add_sent-All (max_bytes + size) (vad_step f v).1 (run_vad fs (vad_step f v).0).1 sent rest,
    )

-- Whatever frames of at most `size` bytes come in and whenever the gateway plays, no utterance is longer
-- than 8 seconds and one frame, the detector keeps at most 8 seconds, and it keeps nothing out of speech.
pub run_vad-Calm :
    (size : ℕ) (fs : List SoundFrame)
    → All (λ f. length f.pcm ≤ size) fs
    → Calm (run_vad fs new_vad).0 × All (λ u. length u ≤ max_bytes + size) (run_vad fs new_vad).1
unfolding new_vad
run_vad-Calm size fs h =
    run_vad_fine size fs new_vad h (omega arith, (omega arith, λ off. (refl, refl)))
