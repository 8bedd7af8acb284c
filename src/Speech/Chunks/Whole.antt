-- ===== src/Speech/Chunks/Whole.antt =====
-- What gateway/siprec.go transcribes of a leg.
use voiceagent.Base.{
  ℕ, zero, suc, ◌+◌, ◌-◌, ◌≡◌, refl, ap, ◌∙◌, sym, List, [], ◌∷◌, ◌++◌, append_assoc, append-nil,
  Option, none, some, if◌then◌else◌, leb, drop, arith, Bool-cases, inl, inr,
}
use voiceagent.Audio.Pcm.{Bytes}
use voiceagent.Speech.Chunks.{
  warmup_frames, LegFrame, Leg, new_leg, Chunk, sent, skipped, flush_chunk, leg_step, add_chunk,
  run_leg, last_chunk, run_stt,
}

unfoldable pub sound_of : List LegFrame → Bytes
sound_of [] = []
sound_of (f ∷ fs) = f.pcm ++ sound_of fs

abbrev bytes_of : Chunk → Bytes
bytes_of (sent b) = b
bytes_of (skipped b) = b

unfoldable pub joined_chunks : List Chunk → Bytes
joined_chunks [] = []
joined_chunks (c ∷ cs) = bytes_of c ++ joined_chunks cs

joined_chunks-append :
    (cs ds : List Chunk) → joined_chunks (cs ++ ds) ≡ joined_chunks cs ++ joined_chunks ds
unfolding joined_chunks
joined_chunks-append [] ds = refl
joined_chunks-append (c ∷ cs) ds =
    ap (λ r. bytes_of c ++ r) (joined_chunks-append cs ds)
    ∙ sym (append_assoc (bytes_of c) (joined_chunks cs) (joined_chunks ds))

-- The frames that are used, with `n` frames before them.
unfoldable used : ℕ → List LegFrame → List LegFrame
used n [] = []
used n (f ∷ fs) = let rest = used (n + 1) fs in if leb (n + 1) warmup_frames then rest else f ∷ rest

leg_step-count : (f : LegFrame) (leg : Leg) → (leg_step f leg).0.frame_count ≡ leg.frame_count + 1
unfolding leg_step flush_chunk
leg_step-count f leg = ground arith

step_bytes :
    (f : LegFrame) (leg : Leg)
    → joined_chunks (add_chunk (leg_step f leg).1 []) ++ (leg_step f leg).0.audio_buf
      ≡ (if leb (leg.frame_count + 1) warmup_frames then leg.audio_buf else leg.audio_buf ++ f.pcm)
unfolding leg_step flush_chunk joined_chunks
step_bytes f leg =
    let grown : Bytes = leg.audio_buf ++ f.pcm in
    ground (arith, append-nil grown, append-nil (grown ++ []))

joined_chunks-add_chunk :
    (c : Option Chunk) (rest : List Chunk)
    → joined_chunks (add_chunk c rest) ≡ joined_chunks (add_chunk c []) ++ joined_chunks rest
unfolding joined_chunks
joined_chunks-add_chunk none rest = refl
joined_chunks-add_chunk (some c) rest =
    ap (λ b. b ++ joined_chunks rest) (sym (append-nil (bytes_of c)))

run_leg_bytes :
    (fs : List LegFrame) (leg : Leg)
    → joined_chunks (run_leg fs leg).1 ++ (run_leg fs leg).0.audio_buf
      ≡ leg.audio_buf ++ sound_of (used leg.frame_count fs)
unfolding run_leg used sound_of joined_chunks
run_leg_bytes [] leg = sym (append-nil leg.audio_buf)
run_leg_bytes (f ∷ fs) leg =
    let (leg', chunk) = leg_step f leg in
    let (leg'', rest) = run_leg fs leg' in
    let first : Bytes = joined_chunks (add_chunk (leg_step f leg).1 []) in
    let later : Bytes = sound_of (used (leg.frame_count + 1) fs) in
    let tail : joined_chunks rest ++ leg''.audio_buf ≡ leg'.audio_buf ++ later =
      run_leg_bytes fs leg'
      ∙ ap (λ n. leg'.audio_buf ++ sound_of (used n fs)) (leg_step-count f leg) in
    ap (λ b. b ++ leg''.audio_buf) (joined_chunks-add_chunk chunk rest)
    ∙ append_assoc first (joined_chunks rest) leg''.audio_buf
    ∙ ap (λ b. first ++ b) tail
    ∙ sym (append_assoc first leg'.audio_buf later)
    ∙ ap (λ b. b ++ later) (step_bytes f leg)
    ∙ elim (Bool-cases (leb (leg.frame_count + 1) warmup_frames)) [
      | inl e ↦ rw (e) refl
      | inr e ↦ rw (e) (append_assoc leg.audio_buf f.pcm later)
    ]

used-drop : (n : ℕ) (fs : List LegFrame) → used n fs ≡ drop (warmup_frames - n) fs
unfolding used
used-drop n [] = nothing (warmup_frames - n)
  where
    nothing : (k : ℕ) → [] ≡ drop {A = LegFrame} k []
    nothing zero = refl
    nothing (suc k) = refl
used-drop n (f ∷ fs) = elim (Bool-cases (leb (n + 1) warmup_frames)) [
  | inl e ↦
      let more : warmup_frames - n ≡ suc (warmup_frames - (n + 1)) = ground (arith, e) in
      rw (e, more) (used-drop (n + 1) fs)
  | inr e ↦
      let past : warmup_frames - n ≡ 0 = ground (arith, e) in
      let past' : warmup_frames - (n + 1) ≡ 0 = ground (arith, e) in
      rw (e, past) (ap (λ rest. f ∷ rest) (used-drop (n + 1) fs ∙ ap (λ k. drop k fs) past'))
]

last_chunk-bytes :
    (b : Bytes) (n : ℕ) → joined_chunks (last_chunk (record { audio_buf = b; frame_count = n })) ≡ b
unfolding last_chunk joined_chunks
last_chunk-bytes [] n = refl
last_chunk-bytes (x ∷ b) n = append-nil (x ∷ b)

-- The chunks of a leg, transcribed and skipped, put together in their order, are the sound of the leg
-- from its 26th frame on: none is lost between two chunks, none comes twice.
pub run_stt-sound_of :
    (fs : List LegFrame) → joined_chunks (run_stt fs) ≡ sound_of (drop warmup_frames fs)
unfolding run_stt new_leg
run_stt-sound_of fs =
    let (leg, chunks) = run_leg fs new_leg in
    joined_chunks-append chunks (last_chunk leg)
    ∙ ap (λ b. joined_chunks chunks ++ b) (last_chunk-bytes leg.audio_buf leg.frame_count)
    ∙ run_leg_bytes fs new_leg
    ∙ ap sound_of (used-drop 0 fs)
