-- ===== src/Calls/Conference/Lifetime.antt =====
-- Conferences of gateway/conference.go that the registry forgets.
use voiceagent.Base.{
  ℕ, zero, suc, ◌<◌, ◌≡◌, ◌≢◌, refl, ap, ◌∙◌, sym, subst, true, false, List, [], ◌∷◌, ◌++◌, none,
  some, if◌then◌else◌, ◌==◌, ==_iff, length, get_elem?, arith, Text, same_refl, same_iff, get, put,
  del, get-put, get-del, if_elim, Option-cases, inl, inr,
}
use voiceagent.Calls.Conference.{
  ConferenceSession, CallSession, Floor, change_object, without_third, start_conference,
  external_answered, close_third, registered, drop_third_party, end_conference, ConferenceStep,
  conference_step, run_conferences,
}
use voiceagent.Calls.Conference.Steps.{conference_step_keeps}

module _ {ℓ} {A : Type ℓ} where
  get_elem-append :
      (xs ys : List A) (i : ℕ) (a : A) → get_elem? xs i ≡ some a → get_elem? (xs ++ ys) i ≡ some a
  get_elem-append [] ys i a h = cc
  get_elem-append (x ∷ xs) ys zero a h = h
  get_elem-append (x ∷ xs) ys (suc i) a h = get_elem-append xs ys i a h

  get_elem-length : (xs : List A) (i : ℕ) (a : A) → get_elem? xs i ≡ some a → i < length xs
  get_elem-length [] i a h = cc
  get_elem-length (x ∷ xs) zero a h = omega arith
  get_elem-length (x ∷ xs) (suc i) a h = omega (arith, get_elem-length xs i a h)

pub get_elem-change :
    (j i : ℕ) (f : ConferenceSession → ConferenceSession) (cs : List ConferenceSession)
    (c : ConferenceSession)
    → get_elem? cs i ≡ some c
    → get_elem? (change_object j f cs) i ≡ some (if j == i then f c else c)
unfolding change_object
get_elem-change j i f [] c h = cc
get_elem-change zero zero f (x ∷ cs) c h = ground (arith, h)
get_elem-change zero (suc i) f (x ∷ cs) c h = h ∙ ground arith
get_elem-change (suc j) zero f (x ∷ cs) c h = h ∙ ground arith
get_elem-change (suc j) (suc i) f (x ∷ cs) c h = get_elem-change j i f cs c h ∙ ground arith

-- Conference i is not cancelled and no entry of the registry leads to it.
unfoldable pub Adrift : ℕ → List (Text × ℕ) → List ConferenceSession → Type 0
Adrift i conferences objects =
    ((k : Text) → get k conferences ≢ some i)
    × ((c : ConferenceSession) × ((get_elem? objects i ≡ some c) × (c.cancelled ≡ false)))

abbrev AdriftIn : ℕ → Floor → Type 0
AdriftIn i fl = Adrift i fl.conferences fl.objects

-- An object that is changed without being cancelled stays as it was in this respect.
change-cancelled :
    (j i : ℕ) (f : ConferenceSession → ConferenceSession) (cs : List ConferenceSession)
    → ((c : ConferenceSession) → j ≡ i → (f c).cancelled ≡ c.cancelled)
    → ((c : ConferenceSession) × ((get_elem? cs i ≡ some c) × (c.cancelled ≡ false)))
    → (c : ConferenceSession) × ((get_elem? (change_object j f cs) i ≡ some c)
        × (c.cancelled ≡ false))
change-cancelled j i f cs same_flag (c, (at, live)) = (
  (if j == i then f c else c),
  (
    get_elem-change j i f cs c at,
    if_elim (λ x. x.cancelled ≡ false) (f c) c (j == i) (λ e. same_flag c ((==_iff j i).0 e) ∙ live)
        (λ e. live),
  ),
)

start_conference-Adrift :
    (i : ℕ) (call kind target : Text) (fl : Floor)
    → AdriftIn i fl
    → AdriftIn i (start_conference call kind target fl).0
unfolding Adrift start_conference
start_conference-Adrift i call kind target fl (far, (c, (at, live))) =
    elim (Option-cases (get call fl.calls)) [
      | inl e ↦
          let q : (start_conference call kind target fl).0 ≡ fl = ground (arith, e) in
          subst (AdriftIn i) (sym q) (far, (c, (at, live)))
      | inr (s, e) ↦
          let n : ℕ = length fl.objects in
          let there = get_elem-length fl.objects i c at in
          let made : ConferenceSession = record {
            call_id = call;
            third_type = kind;
            third_id = target;
            third_active = false;
            third_wrtc = none;
            third_rtp = none;
            cancelled = false;
          } in
          let after : Floor = (start_conference call kind target fl).0 in
          let q : after.conferences ≡ put call n fl.conferences = ground (arith, e) in
          let p : after.objects ≡ fl.objects ++ (made ∷ []) = ground (arith, e) in
          (
            λ k h. ground (arith, q, h, far k, get-put call k n fl.conferences, there),
            (c, (rw (p) (get_elem-append fl.objects (made ∷ []) i c at), live)),
          )
    ]

drop_third_party-Adrift :
    (i : ℕ) (call : Text) (fl : Floor) → AdriftIn i fl → AdriftIn i (drop_third_party call fl).0
unfolding Adrift drop_third_party close_third
drop_third_party-Adrift i call fl (far, held) = elim (Option-cases (registered call fl)) [
  | inl e ↦
      let q : (drop_third_party call fl).0 ≡ fl = ground (arith, e) in
      subst (AdriftIn i) (sym q) (far, held)
  | inr ((j, cs), e) ↦
      let q : (drop_third_party call fl).0 ≡ close_third j cs fl = ground (arith, e) in
      subst (AdriftIn i) (sym q)
        (far, change-cancelled j i without_third fl.objects (λ c e'. refl) held)
]

registered-entry :
    (call : Text) (fl : Floor) (j : ℕ) (cs : ConferenceSession)
    → registered call fl ≡ some (j, cs)
    → get call fl.conferences ≡ some j
unfolding registered
registered-entry call fl j cs h = elim (Option-cases (get call fl.conferences)) [
  | inl e ↦ ground (arith, h, e)
  | inr (k, e) ↦ elim (Option-cases (get_elem? fl.objects k)) [
    | inl e' ↦ ground (arith, h, e, e')
    | inr (c, e') ↦ ground (arith, h, e, e')
  ]
]

end_conference-Adrift :
    (i : ℕ) (call : Text) (fl : Floor) → AdriftIn i fl → AdriftIn i (end_conference call fl)
unfolding Adrift end_conference
end_conference-Adrift i call fl (far, held) = elim (Option-cases (registered call fl)) [
  | inl e ↦
      let q : end_conference call fl ≡ fl = ground (arith, e) in
      subst (AdriftIn i) (sym q) (far, held)
  | inr ((j, cs), e) ↦
      let cancel : ConferenceSession → ConferenceSession = λ c. record c { cancelled = true } in
      let entry : get call fl.conferences ≡ some j = registered-entry call fl j cs e in
      let q : (end_conference call fl).conferences ≡ del call fl.conferences = ground (arith, e) in
      let p : (end_conference call fl).objects ≡ change_object j cancel fl.objects =
        ground (arith, e) in
      (
        λ k h. ground (arith, q, h, far k, get-del call k fl.conferences),
        rw (p) (
            change-cancelled j i cancel fl.objects
              (λ c same_i. absurd (far call (entry ∙ ap some same_i))) held),
      )
]

conference_step-Adrift :
    (i : ℕ) (x : ConferenceStep) (fl : Floor) → AdriftIn i fl → AdriftIn i (conference_step x fl)
unfolding external_answered
conference_step-Adrift i x fl h =
    conference_step_keeps (AdriftIn i) fl
      (λ call kind target. start_conference-Adrift i call kind target fl h)
      (λ call. drop_third_party-Adrift i call fl h) (λ call. end_conference-Adrift i call fl h)
      (λ j leg.
        (unfold Adrift in (h.0, change-cancelled j i _ fl.objects (λ c e. ground arith) h.1)))
      h x

run_conferences-Adrift :
    (i : ℕ) (xs : List ConferenceStep) (fl : Floor)
    → AdriftIn i fl
    → AdriftIn i (run_conferences xs fl)
unfolding run_conferences
run_conferences-Adrift i [] fl h = h
run_conferences-Adrift i (x ∷ xs) fl h =
    run_conferences-Adrift i xs (conference_step x fl) (conference_step-Adrift i x fl h)

-- When a conference is started for a call that has one, which no other call has, the first is cancelled
-- by nothing that follows, and no entry of the registry leads to it any more: its goroutines go on.
pub start_conference_leaks :
    (xs : List ConferenceStep) (fl : Floor) (call kind target : Text) (s : CallSession) (i : ℕ)
    (c : ConferenceSession)
    → get call fl.calls ≡ some s
    → ((k : Text) → get k fl.conferences ≡ some i → k ≡ call)
    → get_elem? fl.objects i ≡ some c
    → c.cancelled ≡ false
    → let after : Floor = run_conferences xs (start_conference call kind target fl).0 in
      Adrift i after.conferences after.objects
unfolding Adrift start_conference
start_conference_leaks xs fl call kind target s i c known only at live =
    let n : ℕ = length fl.objects in
    let there = get_elem-length fl.objects i c at in
    let made : ConferenceSession = record {
      call_id = call;
      third_type = kind;
      third_id = target;
      third_active = false;
      third_wrtc = none;
      third_rtp = none;
      cancelled = false;
    } in
    let again : Floor = (start_conference call kind target fl).0 in
    let q : again.conferences ≡ put call n fl.conferences = ground (arith, known) in
    let p : again.objects ≡ fl.objects ++ (made ∷ []) = ground (arith, known) in
    run_conferences-Adrift i xs again (
      λ k h. ground (
        arith,
        q,
        h,
        only k,
        same_iff call k,
        same_refl call,
        get-put call k n fl.conferences,
        there,
      ),
      (c, (rw (p) (get_elem-append fl.objects (made ∷ []) i c at), live)),
    )
