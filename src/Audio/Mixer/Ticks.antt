-- ===== src/Audio/Mixer/Ticks.antt =====
-- What a tick of `AudioMixer.run` in gateway/conference.go delivers.
use voiceagent.Base.{
  ℕ, zero, suc, ◌+◌, ◌≤◌, ◌<◌, ◌≡◌, refl, ap, ◌∙◌, List, [], ◌∷◌, ◌++◌, true, false, arith, ℤ, pos,
  ◌+ℤ◌, length, get_or, replicate, All, int_laws, length-append, subst,
}
use voiceagent.Audio.Pcm.{
  Bytes, IsByte, InInt16, samples, put_samples, put_samples-samples, samples-InInt16,
  length-samples, int16,
}
use voiceagent.Audio.Mixer.{
  Frames, AudioMixer, Participant, mix_chan_buf, mix_frame_bytes, mix_frame_samples, silence,
  sample_at, saturate, mix_sample, mix_from, mix_excluding, offer, heard, consumed, deliver,
  frames_of, tick, feed, rest_of,
}
use voiceagent.Audio.Mixer.Mixing.{others, mix_sample-others}

-- A channel holds 50 frames at most.
abbrev pub IsBounded : AudioMixer → Type 0
IsBounded m =
    All (λ ch. length ch ≤ mix_chan_buf)
      (m.caller.pcm_in ∷ m.caller.pcm_out ∷ m.agent.pcm_in ∷ m.agent.pcm_out ∷ m.third.pcm_in
        ∷ m.third.pcm_out ∷ [])

length-offer :
    (frame : Bytes) (ch : List Bytes)
    → length ch ≤ mix_chan_buf
    → length (offer frame ch) ≤ mix_chan_buf
unfolding offer
length-offer frame ch h = ground (arith, length-append ch (frame ∷ []))

length-rest_of : (ch : List Bytes) → length ch ≤ mix_chan_buf → length (rest_of ch) ≤ mix_chan_buf
length-rest_of [] h = h
length-rest_of (f ∷ fs) h = omega arith

abbrev BothBounded : Participant → Type 0
BothBounded p = (length p.pcm_in ≤ mix_chan_buf) × (length p.pcm_out ≤ mix_chan_buf)

consumed-BothBounded : (p : Participant) → BothBounded p → BothBounded (consumed p)
unfolding consumed
consumed-BothBounded p h = ground (arith, length-rest_of p.pcm_in)

deliver-BothBounded :
    (f : Frames) (i : ℕ) (p : Participant) → BothBounded p → BothBounded (deliver f i p)
unfolding deliver
deliver-BothBounded f i p h = ground (arith, length-offer (mix_excluding f i) p.pcm_out)

mix_from_ext :
    (f g : Frames) (e s n : ℕ)
    → ((k : ℕ) → mix_sample f e k ≡ mix_sample g e k)
    → mix_from f e s n ≡ mix_from g e s n
unfolding mix_from
mix_from_ext f g e s zero h = refl
mix_from_ext f g e s (suc n) h = rw (h s, mix_from_ext f g e (s + 1) n h)

-- What participant e hears depends on the two others alone.
mix_excluding_ext :
    (f g : Frames) (e : ℕ) → e < 3 → others f e ≡ others g e → mix_excluding f e ≡ mix_excluding g e
unfolding mix_excluding
mix_excluding_ext f g e h o = ap put_samples (
    mix_from_ext f g e 0 mix_frame_samples
      λ k. rw (mix_sample-others f e k h, mix_sample-others g e k h, o))

heard_alike :
    (f g : Frames) (i : ℕ) (p : Participant) (ch : List Bytes)
    → i < 3
    → others f i ≡ others g i
    → (deliver f i (consumed (record p { pcm_in = ch }))).pcm_out
      ≡ (deliver g i (consumed p)).pcm_out
unfolding deliver consumed
heard_alike f g i p ch h o = ground (arith, mix_excluding_ext f g i h o)

-- Nobody hears himself: whatever waits in a participant's own channel, the tick delivers the same
-- to him.
pub tick_no_echo :
    (m : AudioMixer) (ch : List Bytes)
    → ((tick (record m { caller = record (m.caller) { pcm_in = ch } })).caller.pcm_out
        ≡ (tick m).caller.pcm_out)
      × ((tick (record m { agent = record (m.agent) { pcm_in = ch } })).agent.pcm_out
          ≡ (tick m).agent.pcm_out)
      × ((tick (record m { third = record (m.third) { pcm_in = ch } })).third.pcm_out
          ≡ (tick m).third.pcm_out)
unfolding tick frames_of
tick_no_echo m ch = (
  heard_alike _ (frames_of m) 0 m.caller ch (omega arith) refl,
  heard_alike _ (frames_of m) 1 m.agent ch (omega arith) refl,
  heard_alike _ (frames_of m) 2 m.third ch (omega arith) refl,
)

-- A tick and a received frame keep every channel within its 50 frames.
pub tick-IsBounded :
    (m : AudioMixer) (frame : Bytes)
    → IsBounded m
    → IsBounded (tick m)
      × IsBounded (record m { caller = feed frame m.caller })
      × IsBounded (record m { agent = feed frame m.agent })
      × IsBounded (record m { third = feed frame m.third })
unfolding tick feed
tick-IsBounded m frame (ci, (co, (ai, (ao, (ti, (to, end)))))) = (
  (c.0, (c.1, (a.0, (a.1, (t.0, (t.1, tt)))))),
  (length-offer frame m.caller.pcm_in ci, (co, (ai, (ao, (ti, (to, end)))))),
  (ci, (co, (length-offer frame m.agent.pcm_in ai, (ao, (ti, (to, end)))))),
  (ci, (co, (ai, (ao, (length-offer frame m.third.pcm_in ti, (to, end)))))),
)
  where
    f : Frames
    f = frames_of m

    c : BothBounded (deliver f 0 (consumed m.caller))
    c = deliver-BothBounded f 0 _ (consumed-BothBounded m.caller (ci, co))

    a : BothBounded (deliver f 1 (consumed m.agent))
    a = deliver-BothBounded f 1 _ (consumed-BothBounded m.agent (ai, ao))

    t : BothBounded (deliver f 2 (consumed m.third))
    t = deliver-BothBounded f 2 _ (consumed-BothBounded m.third (ti, to))

-- A list is what the mixing loop yields if it agrees with the samples one by one.
mix_from_unique :
    (f : Frames) (e s : ℕ) (ss : List ℤ)
    → ((k : ℕ) → k < length ss → mix_sample f e (s + k) ≡ get_or ss k (pos 0))
    → mix_from f e s (length ss) ≡ ss
unfolding mix_from
mix_from_unique f e s [] h = refl
mix_from_unique f e s (x ∷ xs) h = rw (
  ap (mix_sample f e) (zero_right s) ∙ h 0 (omega arith),
  mix_from_unique f e (s + 1) xs λ k lt. ap (mix_sample f e) (shift s k) ∙ h (suc k) (omega arith),
)
  where
    zero_right : (s : ℕ) → s ≡ s + 0
    zero_right s = omega arith

    shift : (s k : ℕ) → s + 1 + k ≡ s + suc k
    shift s k = omega arith

get_or-replicate : (n k : ℕ) (z : ℤ) → get_or (replicate n z) k z ≡ z
get_or-replicate zero k z = refl
get_or-replicate (suc n) zero z = refl
get_or-replicate (suc n) (suc k) z = get_or-replicate n k z

sample_at-silence : (k : ℕ) → sample_at silence k ≡ pos 0
unfolding samples int16
sample_at-silence k = get_or-replicate 320 k (pos 0)

get_or-InInt16 : (ss : List ℤ) (k : ℕ) → All InInt16 ss → InInt16 (get_or ss k (pos 0))
get_or-InInt16 [] k h = omega arith
get_or-InInt16 (s ∷ ss) zero h = h.0
get_or-InInt16 (s ∷ ss) (suc k) h = get_or-InInt16 ss k h.1

saturate_id : (s : ℤ) → InInt16 s → saturate s ≡ s
unfolding saturate
saturate_id s h = ground arith

-- With silence from the one, the mix of two is the frame of the other.
mix_excluding_pair :
    (f : Frames) (e : ℕ) (b : Bytes)
    → e < 3
    → All IsByte b
    → length b ≡ mix_frame_bytes
    → ((k : ℕ) → sample_at (others f e).0 k +ℤ sample_at (others f e).1 k ≡ sample_at b k)
    → mix_excluding f e ≡ b
unfolding mix_excluding
mix_excluding_pair f e b he bytes size h =
    ap put_samples (subst (λ n. mix_from f e 0 n ≡ samples b) count agree)
    ∙ put_samples-samples b bytes (omega arith)
  where
    count : length (samples b) ≡ mix_frame_samples
    count = omega (arith, length-samples b)

    agree : mix_from f e 0 (length (samples b)) ≡ samples b
    agree = mix_from_unique f e 0 (samples b) λ k lt.
        ap (mix_sample f e) (omega arith)
        ∙ mix_sample-others f e k he
        ∙ ap saturate (h k)
        ∙ saturate_id _ (get_or-InInt16 (samples b) k (samples-InInt16 b bytes))

plus_zero : (a : ℤ) → a +ℤ pos 0 ≡ a
plus_zero a = omega int_laws

delivered :
    (f : Frames) (i : ℕ) (p : Participant) (x : Bytes)
    → p.active ≡ true
    → mix_excluding f i ≡ x
    → length p.pcm_out < mix_chan_buf
    → (deliver f i (consumed p)).pcm_out ≡ p.pcm_out ++ x ∷ []
unfolding deliver consumed
delivered f i p x a e h = ground arith

left_alone :
    (f : Frames) (i : ℕ) (p : Participant) → p.active ≡ false → deliver f i (consumed p) ≡ p
unfolding deliver consumed
left_alone f i p a = ground arith

heard_active :
    (p : Participant) (x : Bytes) (xs : List Bytes)
    → p.active ≡ true
    → p.pcm_in ≡ x ∷ xs
    → heard p ≡ x
unfolding heard
heard_active p x xs a e = ground arith

heard_inactive : (p : Participant) → p.active ≡ false → heard p ≡ silence
unfolding heard
heard_inactive p a = ground arith

-- Without an active third party the conference is transparent: the tick hands the agent's oldest
-- frame to the caller and the caller's to the agent, byte for byte, and leaves the third party alone.
pub tick_two_party :
    (m : AudioMixer) (b c : Bytes) (bs cs : List Bytes)
    → m.caller.active ≡ true
    → m.agent.active ≡ true
    → m.third.active ≡ false
    → m.agent.pcm_in ≡ b ∷ bs
    → m.caller.pcm_in ≡ c ∷ cs
    → All IsByte b
    → length b ≡ mix_frame_bytes
    → All IsByte c
    → length c ≡ mix_frame_bytes
    → length m.caller.pcm_out < mix_chan_buf
    → length m.agent.pcm_out < mix_chan_buf
    → ((tick m).caller.pcm_out ≡ m.caller.pcm_out ++ b ∷ [])
      × ((tick m).agent.pcm_out ≡ m.agent.pcm_out ++ c ∷ [])
      × ((tick m).third ≡ m.third)
unfolding tick frames_of
tick_two_party m b c bs cs ca aa ta ab cc' hb lb hc lc oc oa = (
  delivered (frames_of m) 0 m.caller b ca to_caller oc,
  delivered (frames_of m) 1 m.agent c aa to_agent oa,
  left_alone (frames_of m) 2 m.third ta,
)
  where
    to_caller : mix_excluding (frames_of m) 0 ≡ b
    to_caller = mix_excluding_pair (frames_of m) 0 b (omega arith) hb lb λ k.
        rw (heard_active m.agent b bs aa ab, heard_inactive m.third ta, sample_at-silence k)
          (plus_zero _)

    to_agent : mix_excluding (frames_of m) 1 ≡ c
    to_agent = mix_excluding_pair (frames_of m) 1 c (omega arith) hc lc λ k.
        rw (heard_active m.caller c cs ca cc', heard_inactive m.third ta, sample_at-silence k)
          (plus_zero _)
