-- ===== src/Calls/Conference/Thirds.antt =====
-- The third party of the conferences of gateway/conference.go.
use voiceagent.Base.{
  ℕ, zero, suc, ◌≡◌, refl, sym, subst, true, false, List, [], ◌∷◌, ◌++◌, none, All, arith, Text,
  lit, same, get, if_elim, Option-cases, inl, inr,
}
use voiceagent.Calls.Conference.{
  ConferenceSession, Floor, change_object, without_third, start_conference, external_answered,
  close_third, registered, drop_third_party, end_conference, ConferenceStep, conference_step,
  run_conferences,
}
use voiceagent.Calls.Conference.Steps.{conference_step_keeps}

-- Nobody takes part as third unless the conference was started for an external number.
abbrev pub OnlyExternal : ConferenceSession → Type 0
OnlyExternal c = same c.third_type (lit "external") ≡ false → c.third_active ≡ false

abbrev AllExternal : Floor → Type 0
AllExternal fl = All OnlyExternal fl.objects

change-OnlyExternal :
    (i : ℕ) (f : ConferenceSession → ConferenceSession) (cs : List ConferenceSession)
    → ((c : ConferenceSession) → OnlyExternal c → OnlyExternal (f c))
    → All OnlyExternal cs
    → All OnlyExternal (change_object i f cs)
unfolding change_object
change-OnlyExternal i f [] keeps h = h
change-OnlyExternal zero f (c ∷ cs) keeps (h, hs) = (keeps c h, hs)
change-OnlyExternal (suc i) f (c ∷ cs) keeps (h, hs) = (h, change-OnlyExternal i f cs keeps hs)

append-OnlyExternal :
    (cs : List ConferenceSession) (c : ConferenceSession)
    → All OnlyExternal cs
    → OnlyExternal c
    → All OnlyExternal (cs ++ (c ∷ []))
append-OnlyExternal [] c hs h = (h, tt)
append-OnlyExternal (x ∷ cs) c (hx, hs) h = (hx, append-OnlyExternal cs c hs h)

module _ (fl : Floor) (h : AllExternal fl) where
  start_conference-AllExternal :
      (call kind target : Text) → AllExternal (start_conference call kind target fl).0
  unfolding start_conference
  start_conference-AllExternal call kind target = elim (Option-cases (get call fl.calls)) [
    | inl e ↦
        let q : (start_conference call kind target fl).0 ≡ fl = ground (arith, e) in
        subst AllExternal (sym q) h
    | inr (s, e) ↦
        let made : ConferenceSession = record {
          call_id = call;
          third_type = kind;
          third_id = target;
          third_active = false;
          third_wrtc = none;
          third_rtp = none;
          cancelled = false;
        } in
        let q : (start_conference call kind target fl).0.objects ≡ fl.objects ++ (made ∷ []) =
          ground (arith, e) in
        rw (q) (append-OnlyExternal fl.objects made h (λ other. refl))
  ]

  drop_third_party-AllExternal : (call : Text) → AllExternal (drop_third_party call fl).0
  unfolding drop_third_party close_third
  drop_third_party-AllExternal call = elim (Option-cases (registered call fl)) [
    | inl e ↦
        let q : (drop_third_party call fl).0 ≡ fl = ground (arith, e) in subst AllExternal (sym q) h
    | inr ((i, cs), e) ↦
        let q : (drop_third_party call fl).0.objects ≡ change_object i without_third fl.objects =
          ground (arith, e) in
        rw (q) (change-OnlyExternal i without_third fl.objects (λ c kept other. refl) h)
  ]

  end_conference-AllExternal : (call : Text) → AllExternal (end_conference call fl)
  unfolding end_conference
  end_conference-AllExternal call = elim (Option-cases (registered call fl)) [
    | inl e ↦ let q : end_conference call fl ≡ fl = ground (arith, e) in subst AllExternal (sym q) h
    | inr ((i, cs), e) ↦
        let cancel : ConferenceSession → ConferenceSession = λ c. record c { cancelled = true } in
        let q : (end_conference call fl).objects ≡ change_object i cancel fl.objects =
          ground (arith, e) in
        rw (q) (change-OnlyExternal i cancel fl.objects (λ c kept. kept) h)
  ]

  external_answered-AllExternal : (i leg : ℕ) → AllExternal (external_answered i leg fl)
  unfolding external_answered
  external_answered-AllExternal i leg =
      change-OnlyExternal i _ fl.objects
        (λ c kept.
          if_elim OnlyExternal _ c (same c.third_type (lit "external"))
            (λ e other. ground (arith, e, other)) (λ e. kept))
        h

-- Whatever conferences are asked for, joined by supervisors, dropped and answered, no conference that
-- was started for an agent ever has its third party take part: an agent who is rung never joins.
pub run_conferences-OnlyExternal :
    (xs : List ConferenceStep) (fl : Floor)
    → All OnlyExternal fl.objects
    → All OnlyExternal (run_conferences xs fl).objects
unfolding run_conferences
run_conferences-OnlyExternal [] fl h = h
run_conferences-OnlyExternal (x ∷ xs) fl h =
    run_conferences-OnlyExternal xs (conference_step x fl) (
      conference_step_keeps AllExternal fl (start_conference-AllExternal fl h)
        (drop_third_party-AllExternal fl h) (end_conference-AllExternal fl h)
        (external_answered-AllExternal fl h) h x)
