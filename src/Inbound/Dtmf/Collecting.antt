-- ===== src/Inbound/Dtmf/Collecting.antt =====
-- The key presses that the collector of gateway/dtmf.go hands on.
use voiceagent.Base.{
  ℕ, ◌-◌, ◌≡◌, refl, sym, ap, ◌∙◌, true, inl, inr, ◌&&◌, not, List, [], ◌∷◌, ◌++◌, append_assoc,
  append-nil, ltb, arith, Text, Bool-cases,
}
use voiceagent.Inbound.Dtmf.{
  DtmfEvent, DtmfCollector, KeyStep, key, tick, add_digit, digits_of, no_events, flush_tick,
  collect_all,
}

abbrev pub joined : List Text → Text
joined [] = []
joined (t ∷ ts) = t ++ joined ts

abbrev pub keys_of : List KeyStep → Text
keys_of [] = []
keys_of (key e ∷ steps) = e.digit ++ keys_of steps
keys_of (tick now ∷ steps) = keys_of steps

digits_of-append : (es fs : List DtmfEvent) → digits_of (es ++ fs) ≡ digits_of es ++ digits_of fs
unfolding digits_of
digits_of-append [] fs = refl
digits_of-append (e ∷ es) fs =
    ap (λ ds. e.digit ++ ds) (digits_of-append es fs)
    ∙ sym (append_assoc e.digit (digits_of es) (digits_of fs))

digits_of-snoc :
    (es : List DtmfEvent) (e : DtmfEvent) → digits_of (es ++ (e ∷ [])) ≡ digits_of es ++ e.digit
unfolding digits_of
digits_of-snoc es e =
    digits_of-append es (e ∷ []) ∙ ap (λ ds. digits_of es ++ ds) (append-nil e.digit)

joined-append : (ts us : List Text) → joined (ts ++ us) ≡ joined ts ++ joined us
joined-append [] us = refl
joined-append (t ∷ ts) us =
    ap (λ ds. t ++ ds) (joined-append ts us) ∙ sym (append_assoc t (joined ts) (joined us))

-- A tick hands on the buffer or keeps it.
flush_tick_keeps :
    (now : ℕ) (dc : DtmfCollector)
    → dc.has_callback ≡ true
    → (joined (flush_tick now dc).1 ++ digits_of (flush_tick now dc).0.buffer ≡ digits_of dc.buffer)
      × ((flush_tick now dc).0.has_callback ≡ true)
unfolding flush_tick digits_of no_events
flush_tick_keeps now dc h =
    elim (Bool-cases (not (no_events dc.buffer) && ltb dc.timeout (now - dc.last_digit))) [
      | inl e ↦
          ground
            (arith, e, h, append-nil (digits_of dc.buffer), append-nil (digits_of dc.buffer ++ []))
      | inr e ↦ ground (arith, e, h)
    ]

-- With a callback, no key press is lost, doubled or moved: over any sequence of presses and ticks,
-- what the callback received, joined, and then what the buffer still holds, is what the buffer held
-- at first followed by the keys in the order they were pressed.
pub collect_all_keeps :
    (steps : List KeyStep) (dc : DtmfCollector)
    → dc.has_callback ≡ true
    → joined (collect_all steps dc).1 ++ digits_of (collect_all steps dc).0.buffer
      ≡ digits_of dc.buffer ++ keys_of steps
unfolding collect_all add_digit
collect_all_keeps [] dc h = sym (append-nil (digits_of dc.buffer))
collect_all_keeps (key e ∷ steps) dc h =
    collect_all_keeps steps (add_digit e dc) h
    ∙ ap (λ ds. ds ++ keys_of steps) (digits_of-snoc dc.buffer e)
    ∙ append_assoc (digits_of dc.buffer) e.digit (keys_of steps)
collect_all_keeps (tick now ∷ steps) dc h =
    let (kept, h') = flush_tick_keeps now dc h in
    let out = (flush_tick now dc).1 in
    let rest = collect_all steps (flush_tick now dc).0 in
    ap (λ ds. ds ++ digits_of rest.0.buffer) (joined-append out rest.1)
    ∙ append_assoc (joined out) (joined rest.1) (digits_of rest.0.buffer)
    ∙ ap (λ ds. joined out ++ ds) (collect_all_keeps steps (flush_tick now dc).0 h')
    ∙ sym (append_assoc (joined out) (digits_of (flush_tick now dc).0.buffer) (keys_of steps))
    ∙ ap (λ ds. ds ++ keys_of steps) kept
