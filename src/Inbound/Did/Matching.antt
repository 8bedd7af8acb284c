-- ===== src/Inbound/Did/Matching.antt =====
-- Which route MatchDID of gateway/did_routing.go takes.
use voiceagent.Base.{
  ◌≡◌, refl, ap, ◌⊎◌, inl, inr, ◌↔◌, Bool, true, false, List, [], ◌∷◌, ◌++◌, Option, none, some,
  Text, same_iff, is_empty, split, trim_space, if_elim, All, arith, Bool-cases, Option-cases,
}
use voiceagent.Inbound.Did.{
  DidRoute, TimeCondition, Destination, trunk_fits, route_applies, destination_of, first_route,
  match_did,
}
use voiceagent.Inbound.Did.Conditions.{
  OnTime, Fits, OpenTo, match_time_condition-OnTime, match_pattern-Fits, Fits-match_pattern,
}

module _ (regex : Text → Text → Option Bool) (parse : Text → Option TimeCondition)
    (today now number trunk : Text) where
  -- A route that is open to the trunk, on time, and whose pattern fits the number.
  abbrev pub Takes : DidRoute → Type 0
  Takes rt =
      OpenTo rt.trunk_id trunk
      × (((is_empty rt.time_condition ≡ true) ⊎ OnTime (parse rt.time_condition) today now)
          × Fits regex number rt)

  trunk_fits-OpenTo : (o : Option Text) → (trunk_fits o trunk ≡ true) ↔ OpenTo o trunk
  trunk_fits-OpenTo none = (λ e. tt, λ e. refl)
  trunk_fits-OpenTo (some t) = same_iff t trunk

  abbrev applies : DidRoute → Bool
  applies = route_applies regex parse today now number trunk

  route_applies-Takes : (rt : DidRoute) → (applies rt ≡ true) ↔ Takes rt
  unfolding route_applies
  route_applies-Takes rt =
      let open_to = trunk_fits-OpenTo rt.trunk_id in
      let on_time = match_time_condition-OnTime parse today now rt.time_condition in
      (
        λ e. (
          open_to.0 (ground (arith, e)),
          (
            elim (Bool-cases (is_empty rt.time_condition)) [
              | inl h ↦ inl h
              | inr h ↦ inr (on_time.0 (ground (arith, e, h)))
            ],
            match_pattern-Fits regex number rt (ground (arith, e)),
          ),
        ),
        λ (is_open, (timed, fits)).
            let o = open_to.1 is_open in
            let m = Fits-match_pattern regex number rt fits in
            elim timed [
              | inl h ↦ ground (arith, o, m, h)
              | inr h ↦ ground (arith, o, m, on_time.1 h)
            ],
      )

  passed : (rt : DidRoute) → applies rt ≡ false → ¬ Takes rt
  passed rt e takes = ground (arith, e, (route_applies-Takes rt).1 takes)

  -- The answer has the destination of the route, with an empty text for a menu that it does not have.
  abbrev pub LeadsTo : DidRoute → Destination → Type 0
  LeadsTo rt d =
      (d.dest_type ≡ rt.destination_type)
      × ((d.dest_value ≡ rt.destination_value)
          × ((d.overflow ≡ rt.overflow_destination)
              × ((some d.ivr_id ≡ rt.ivr_id) ⊎ ((d.ivr_id ≡ []) × (rt.ivr_id ≡ none)))))

  -- No route takes the call and the answer is empty, or it is that of a route which does, behind routes
  -- that do not.
  abbrev pub FirstMatch : List DidRoute → Destination → Type 0
  FirstMatch routes d =
      ((d ≡ record { dest_type = []; dest_value = []; overflow = []; ivr_id = [] })
        × All (λ rt. ¬ Takes rt) routes)
      ⊎ ((before : List DidRoute) × (rt : DidRoute) × (after : List DidRoute) × (routes
            ≡ before ++ rt ∷ after)
          × All (λ r. ¬ Takes r) before
          × Takes rt
          × LeadsTo rt d)

  destination_of-LeadsTo : (rt : DidRoute) → LeadsTo rt (destination_of rt)
  unfolding destination_of
  destination_of-LeadsTo rt = (
    refl,
    (
      refl,
      (
        refl,
        elim (Option-cases rt.ivr_id) [
          | inl e ↦ inr (ground (arith, e), e)
          | inr (i, e) ↦ inl (ground (arith, e))
        ],
      ),
    ),
  )

  first_route-FirstMatch : (routes : List DidRoute) → FirstMatch routes (first_route applies routes)
  unfolding first_route
  first_route-FirstMatch [] = inl (refl, tt)
  first_route-FirstMatch (rt ∷ routes) =
      if_elim (FirstMatch (rt ∷ routes)) _ _ (applies rt)
        (λ e.
          inr ([], rt, routes, refl, tt, (route_applies-Takes rt).0 e, destination_of-LeadsTo rt))
        (λ e. later (passed rt e) (first_route-FirstMatch routes))
    where
      later : {d : Destination} → ¬ Takes rt → FirstMatch routes d → FirstMatch (rt ∷ routes) d
      later e (inl (d, others)) = inl (d, (e, others))
      later e (inr (before, r, after, split, others, ok, d)) =
          inr (rt ∷ before, r, after, ap (λ rs. rt ∷ rs) split, (e, others), ok, d)

-- MatchDID answers the destination of the first route, in the order of the list, that is open to the
-- trunk, whose time condition holds, by its days and its hours, and whose pattern fits the trimmed
-- number, as a prefix, a regular expression or the number itself; it answers empty texts only when no
-- route is.
pub match_did-FirstMatch :
    (regex : Text → Text → Option Bool) (parse : Text → Option TimeCondition)
    (today now dialed trunk : Text) (routes : List DidRoute)
    → FirstMatch regex parse today now
        (trim_space dialed)
        trunk
        routes
        (match_did regex parse today now dialed trunk routes)
unfolding match_did
match_did-FirstMatch regex parse today now dialed trunk routes =
    first_route-FirstMatch regex parse today now (trim_space dialed) trunk routes
