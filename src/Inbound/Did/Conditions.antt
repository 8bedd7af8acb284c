-- ===== src/Inbound/Did/Conditions.antt =====
-- When a route of gateway/did_routing.go may take a call, by its days, its hours, its pattern.
use voiceagent.Base.{
  ◌≤◌, ◌≡◌, ◌≢◌, refl, ap, sym, ◌⊎◌, inl, inr, ◌↔◌, Bool, true, false, ◌&&◌, ◌||◌, List, [], ◌∷◌,
  ◌++◌, Option, none, some, Text, lit, same, same_iff, same_refl, is_empty, has_prefix,
  has_prefix-append, cut, split, trim_suffix, trim_space, arith, Bool-cases, subst,
}
use voiceagent.Inbound.Did.{
  DidRoute, TimeCondition, text_lt, day_order, day_index, in_range, in_list, match_days,
  match_hours, match_time_condition, match_pattern,
}

-- A day of a list, but for the white space around it.
abbrev pub IsListed : Text → List Text → Type 0
IsListed today days =
    (before : List Text) × (d : Text) × (after : List Text) × (days ≡ before ++ d ∷ after)
    × (trim_space d ≡ today)

-- Today is between two days of the week from Monday to Sunday, or is one of a list.
abbrev pub OnDay : Text → Text → Type 0
OnDay days today = elim (cut 45 days) [
  | some (first, last) ↦
      (day_index first day_order 0 ≤ day_index today day_order 0)
      × (day_index today day_order 0 ≤ day_index last day_order 0)
  | none ↦ IsListed today (split 44 days)
]

-- The start and the end of the hours, of which none is given or between which it is now.
abbrev pub InHours : TimeCondition → Text → Type 0
InHours c now =
    ((is_empty c.start ≡ true) ⊎ (is_empty c.finish ≡ true))
    ⊎ ((text_lt now c.start ≡ false) × (text_lt now c.finish ≡ true))

-- A condition that is read, on its days and in its hours.
abbrev pub OnTime : Option TimeCondition → Text → Text → Type 0
OnTime none today now = Unit
OnTime (some c) today now = ((is_empty c.days ≡ true) ⊎ OnDay c.days today) × InHours c now

-- A prefix, which may end in a star, a regular expression, or the number itself.
abbrev pub Fits : (Text → Text → Option Bool) → Text → DidRoute → Type 0
Fits regex number rt =
    ((rt.match_type ≡ lit "prefix")
      × ((rt.did_pattern ≡ lit "*")
          ⊎ ((rest : Text) × (number ≡ trim_suffix 42 rt.did_pattern ++ rest))))
    ⊎ (((rt.match_type ≡ lit "regex") × (regex rt.did_pattern number ≡ some true))
        ⊎ ((rt.match_type ≢ lit "prefix")
            × (rt.match_type ≢ lit "regex")
            × (number ≡ rt.did_pattern)))

abbrev pub OpenTo : Option Text → Text → Type 0
OpenTo none trunk = Unit
OpenTo (some t) trunk = t ≡ trunk

in_list-IsListed :
    (today : Text) (days : List Text) → in_list today days ≡ true → IsListed today days
unfolding in_list
in_list-IsListed today [] e = absurd (ground (arith, e))
in_list-IsListed today (d ∷ days) e = elim (Bool-cases (same (trim_space d) today)) [
  | inl here ↦ ([], d, days, refl, (same_iff (trim_space d) today).0 here)
  | inr away ↦
      let (before, c, after, whole, is_today) =
        in_list-IsListed today days (ground (arith, e, away)) in
      (d ∷ before, c, after, ap (λ ds. d ∷ ds) whole, is_today)
]

in_list-back :
    (today : Text) (before : List Text) (d : Text) (after : List Text)
    → trim_space d ≡ today
    → in_list today (before ++ d ∷ after) ≡ true
unfolding in_list
in_list-back today [] d after e = ground (arith, e, same_refl today)
in_list-back today (b ∷ before) d after e = ground (arith, in_list-back today before d after e)

match_days-OnDay : (days today : Text) → (match_days days today ≡ true) ↔ OnDay days today
unfolding match_days in_range
match_days-OnDay days today = by_cut (cut 45 days)
  where
    by_cut :
        (o : Option (Text × Text))
        → ((elim o [
          | some (first, last) ↦ in_range first last today
          | none ↦ in_list today (split 44 days)
        ])
            ≡ true)
          ↔ elim o [
            | some (first, last) ↦
                (day_index first day_order 0 ≤ day_index today day_order 0)
                × (day_index today day_order 0 ≤ day_index last day_order 0)
            | none ↦ IsListed today (split 44 days)
          ]
    by_cut (some (first, last)) = ground arith
    by_cut none = (
      in_list-IsListed today (split 44 days),
      λ (before, d, after, whole, is_today).
          rw (whole) (in_list-back today before d after is_today),
    )

match_hours-InHours :
    (c : TimeCondition) (now : Text) → (match_hours c.start c.finish now ≡ true) ↔ InHours c now
unfolding match_hours
match_hours-InHours c now = ground arith

pub match_time_condition-OnTime :
    (parse : Text → Option TimeCondition) (today now cond : Text)
    → (match_time_condition parse today now cond ≡ true) ↔ OnTime (parse cond) today now
unfolding match_time_condition
match_time_condition-OnTime parse today now cond = by_parse (parse cond)
  where
    by_parse :
        (o : Option TimeCondition)
        → ((elim o [
          | none ↦ true
          | some c ↦
              (is_empty c.days || match_days c.days today) && match_hours c.start c.finish now
        ])
            ≡ true)
          ↔ OnTime o today now
    by_parse none = (λ e. tt, λ e. refl)
    by_parse (some c) =
        let days = match_days-OnDay c.days today in
        let hours = match_hours-InHours c now in
        (
          λ e. (
            elim (Bool-cases (is_empty c.days)) [
              | inl h ↦ inl h
              | inr h ↦ inr (days.0 (ground (arith, e, h)))
            ],
            hours.0 (ground (arith, e)),
          ),
          λ (on, during).
              let ok = hours.1 during in
              elim on [ inl h ↦ ground (arith, h, ok) | inr h ↦ ground (arith, days.1 h, ok) ],
        )

prefix-rest : (s p : Text) → has_prefix s p ≡ true → (rest : Text) × (s ≡ p ++ rest)
unfolding has_prefix
prefix-rest s [] e = (s, refl)
prefix-rest [] (b ∷ p) e = absurd (ground (arith, e))
prefix-rest (a ∷ s) (b ∷ p) e =
    let (rest, whole) = prefix-rest s p (ground (arith, e)) in (rest, ground (arith, e, whole))

same_ne : (s t : Text) → same s t ≡ false → s ≢ t
same_ne s t e h = ground (arith, e, (same_iff s t).1 h)

ne_same : (s t : Text) → s ≢ t → same s t ≡ false
ne_same s t h = elim (Bool-cases (same s t)) [ inl e ↦ absurd (h ((same_iff s t).0 e)) | inr e ↦ e ]

module _ (regex : Text → Text → Option Bool) (number : Text) (rt : DidRoute) where
  abbrev kind : Text
  kind = rt.match_type

  abbrev answer : Bool
  answer = match_pattern regex number rt.did_pattern kind

  pub match_pattern-Fits : answer ≡ true → Fits regex number rt
  unfolding match_pattern
  match_pattern-Fits e = elim (Bool-cases (same kind (lit "prefix"))) [
    | inl p ↦
        let is_prefix = (same_iff kind (lit "prefix")).0 p in
        elim (Bool-cases (same rt.did_pattern (lit "*"))) [
          | inl star ↦ inl (is_prefix, inl ((same_iff rt.did_pattern (lit "*")).0 star))
          | inr plain ↦
              inl (
                is_prefix,
                inr (prefix-rest number (trim_suffix 42 rt.did_pattern) (has e p plain)),
              )
        ]
    | inr p ↦ elim (Bool-cases (same kind (lit "regex"))) [
      | inl r ↦ inr (inl ((same_iff kind (lit "regex")).0 r, by_regex e p r))
      | inr r ↦ inr (
          inr (
            same_ne kind _ p,
            same_ne kind _ r,
            (same_iff number rt.did_pattern).0 (ground (arith, e, p, r)),
          ))
    ]
  ]
    where
      not_exact :
          (t : Text)
          → same t (lit "exact") ≡ true
          → (same t (lit "prefix") ≡ false) × (same t (lit "regex") ≡ false)
      not_exact t h =
          subst (λ k. (same k (lit "prefix") ≡ false) × (same k (lit "regex") ≡ false))
            (sym ((same_iff t (lit "exact")).0 h)) (unfold same in (refl, refl))

      has :
          answer ≡ true
          → same kind (lit "prefix") ≡ true
          → same rt.did_pattern (lit "*") ≡ false
          → has_prefix number (trim_suffix 42 rt.did_pattern) ≡ true
      has e p plain = elim (Bool-cases (same kind (lit "exact"))) [
        | inl x ↦ absurd (ground (arith, p, not_exact kind x))
        | inr x ↦ ground (arith, e, p, plain, x)
      ]

      by_regex :
          answer ≡ true
          → same kind (lit "prefix") ≡ false
          → same kind (lit "regex") ≡ true
          → regex rt.did_pattern number ≡ some true
      by_regex e p r = elim (Bool-cases (same kind (lit "exact"))) [
        | inl x ↦ absurd (ground (arith, r, not_exact kind x))
        | inr x ↦ ground (arith, e, p, r, x)
      ]

  pub Fits-match_pattern : Fits regex number rt → answer ≡ true
  unfolding match_pattern
  Fits-match_pattern (inl (is_prefix, inl star)) = rw (is_prefix, star) (unfold same in refl)
  Fits-match_pattern (inl (is_prefix, inr (rest, whole))) =
      rw (is_prefix, whole)
        (unfold same in ground (arith, has_prefix-append (trim_suffix 42 rt.did_pattern) rest))
  Fits-match_pattern (inr (inl (is_regex, matches))) = rw (is_regex, matches) (unfold same in refl)
  Fits-match_pattern (inr (inr (no_prefix, no_regex, whole))) =
      ground
        (arith, ne_same kind _ no_prefix, ne_same kind _ no_regex, whole, same_refl rt.did_pattern)
