-- ===== src/Sip/Answers/Answered.antt =====
-- When gateway/sip_uac.go takes a call as answered.
use voiceagent.Base.{
  ◌≡◌, refl, ap, ◌↔◌, true, false, List, [], ◌∷◌, ◌++◌, All, arith, Text, Bool-cases, inl, inr,
}
use voiceagent.Sip.Answers.{
  read, first_line, is_provisional, is_ok, is_failure, answered, await_answer, await_response,
}

abbrev pub line_of : Text → Text
line_of m = first_line (read m)

-- A response behind a provisional one that neither answers nor rejects.
abbrev pub Passed : Text → Type 0
Passed m = (is_ok (line_of m) ≡ false) × (is_failure (line_of m) ≡ false)

-- What may come before the answer: nothing, if the answer does not look provisional itself, or a
-- provisional response and others that are passed over.
abbrev pub Leads : List Text → Text → Type 0
Leads [] m = is_provisional (line_of m) ≡ false
Leads (p ∷ ps) m = (is_provisional (line_of p) ≡ true) × All Passed ps

abbrev pub AnsweredBy : List Text → Text → Type 0
AnsweredBy ms response =
    (ps : List Text) × (m : Text) × (qs : List Text) × (ms ≡ ps ++ (m ∷ qs))
    × (response ≡ read m)
    × (is_ok (line_of m) ≡ true)
    × Leads ps m

abbrev Later : List Text → Text → Type 0
Later ms response =
    (ps : List Text) × (m : Text) × (qs : List Text) × (ms ≡ ps ++ (m ∷ qs))
    × (response ≡ read m)
    × (is_ok (line_of m) ≡ true)
    × All Passed ps

await_answer-Later :
    (ms : List Text) (response : Text) → await_answer ms ≡ answered response → Later ms response
unfolding await_answer
await_answer-Later [] response h = cc
await_answer-Later (m ∷ ms) response h = elim (Bool-cases (is_ok (line_of m))) [
  | inl e ↦ ([], m, ms, refl, ground (arith, h, e), e, tt)
  | inr e ↦ elim (Bool-cases (is_failure (line_of m))) [
    | inl f ↦ ground (arith, h, e, f)
    | inr f ↦
        let (ps, n, qs, whole, r, o, all) =
          await_answer-Later ms response (ground (arith, h, e, f)) in
        (m ∷ ps, n, qs, ap (λ rest. m ∷ rest) whole, r, o, ((e, f), all))
  ]
]

Later-await_answer :
    (ps : List Text) (m : Text) (qs : List Text)
    → is_ok (line_of m) ≡ true
    → All Passed ps
    → await_answer (ps ++ (m ∷ qs)) ≡ answered (read m)
unfolding await_answer
Later-await_answer [] m qs o all = rw (o) refl
Later-await_answer (p ∷ ps) m qs o ((e, f), all) = rw (e, f) (Later-await_answer ps m qs o all)

await_response-first :
    (ms : List Text) (response : Text)
    → await_response ms ≡ answered response
    → AnsweredBy ms response
unfolding await_response
await_response-first [] response h = cc
await_response-first (m ∷ ms) response h = elim (Bool-cases (is_provisional (line_of m))) [
  | inl e ↦
      let (ps, n, qs, whole, r, o, all) = await_answer-Later ms response (ground (arith, h, e)) in
      (m ∷ ps, n, qs, ap (λ rest. m ∷ rest) whole, r, o, (e, all))
  | inr e ↦ elim (Bool-cases (is_ok (line_of m))) [
    | inl o ↦ ([], m, ms, refl, ground (arith, h, e, o), o, e)
    | inr o ↦ ground (arith, h, e, o)
  ]
]

await_response-back :
    (ps : List Text) (m : Text) (qs : List Text)
    → is_ok (line_of m) ≡ true
    → Leads ps m
    → await_response (ps ++ (m ∷ qs)) ≡ answered (read m)
unfolding await_response
await_response-back [] m qs o e = rw (e, o) refl
await_response-back (p ∷ ps) m qs o (e, all) = rw (e) (Later-await_answer ps m qs o all)

-- A call is answered, and by which response, exactly when one comes whose first line has a 200 in it:
-- either at once, in a line that does not look provisional, or behind a provisional response and others
-- that have neither a 200 nor a 4, 5 or 6 in their lines.
pub await_response-AnsweredBy :
    (ms : List Text) (response : Text)
    → (await_response ms ≡ answered response) ↔ AnsweredBy ms response
await_response-AnsweredBy ms response = (
  await_response-first ms response,
  λ (ps, m, qs, whole, r, o, lead). rw (whole, r) (await_response-back ps m qs o lead),
)
