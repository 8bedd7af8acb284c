-- ===== src/Inbound/Did/Days.antt =====
-- The time conditions of gateway/did_routing.go.
use voiceagent.Base.{
  ◌<◌, ◌≡◌, refl, ◌⊎◌, inl, inr, true, false, ◌||◌, [], ◌∷◌, Option, some, arith, Text, is_empty,
  cut,
}
use voiceagent.Inbound.Did.{
  TimeCondition, text_lt, day_order, day_index, in_range, match_days, match_hours,
  match_time_condition,
}

-- Strings between two others.
text_lt-between : (s t u : Text) → text_lt t s ≡ false → text_lt t u ≡ true → text_lt s u ≡ true
unfolding text_lt
text_lt-between s t [] h k = ground (arith, k)
text_lt-between [] t (c ∷ u) h k = refl
text_lt-between (a ∷ s) [] (c ∷ u) h k = ground (arith, h)
text_lt-between (a ∷ s) (b ∷ t) (c ∷ u) h k = ground (arith, h, k, text_lt-between s t u)

-- The hours begin at the end or after it, or the days are a range whose last day stands before its
-- first one in the week from Monday to Sunday.
abbrev pub WrapsAround : TimeCondition → Type 0
WrapsAround c =
    ((is_empty c.start ≡ false) × (is_empty c.finish ≡ false) × (text_lt c.start c.finish ≡ false))
    ⊎ ((first : Text) × (last : Text) × (cut 45 c.days ≡ some (first, last))
        × (day_index last day_order 0 < day_index first day_order 0))

match_hours_wraps :
    (start finish now : Text)
    → is_empty start ≡ false
    → is_empty finish ≡ false
    → text_lt start finish ≡ false
    → match_hours start finish now ≡ false
unfolding match_hours
match_hours_wraps start finish now s f h = ground (arith, s, f, h, text_lt-between start now finish)

match_days_wraps :
    (days today first last : Text)
    → cut 45 days ≡ some (first, last)
    → day_index last day_order 0 < day_index first day_order 0
    → (is_empty days || match_days days today) ≡ false
unfolding match_days in_range cut
match_days_wraps [] today first last e h = ground (arith, e)
match_days_wraps (c ∷ days) today first last e h = ground (arith, e, h)

-- A condition whose hours pass midnight, such as 22:00 to 06:00, or whose days pass Sunday, such as
-- fri-mon, matches at no time of any day.
pub match_time_condition_wraps :
    (parse : Text → Option TimeCondition) (today now cond : Text) (c : TimeCondition)
    → parse cond ≡ some c
    → WrapsAround c
    → match_time_condition parse today now cond ≡ false
unfolding match_time_condition
match_time_condition_wraps parse today now cond c e (inl (s, f, h)) =
    ground (arith, e, match_hours_wraps c.start c.finish now s f h)
match_time_condition_wraps parse today now cond c e (inr (first, last, split_days, h)) =
    ground (arith, e, match_days_wraps c.days today first last split_days h)
