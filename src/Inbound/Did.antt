-- ===== src/Inbound/Did.antt =====
-- The routing of a dialled number by gateway/did_routing.go. Regular expressions, the parsing of a
-- route's JSON condition and the clock are arguments.
pub mod Conditions
pub mod Matching
pub mod Days
mod Tests
use voiceagent.Base.{
  ℕ, zero, suc, ◌+◌, Bool, true, false, ◌&&◌, ◌||◌, not, List, [], ◌∷◌, Option, none, some,
  if◌then◌else◌, ltb, leb, ◌==◌, Text, lit, same, is_empty, has_prefix, trim_space, cut, split,
  trim_suffix,
}

pub record DidRoute : Type 0 where
  pub did_pattern : Text
  pub match_type : Text
  pub trunk_id : Option Text
  pub destination_type : Text
  pub destination_value : Text
  pub overflow_destination : Text
  pub time_condition : Text
  pub ivr_id : Option Text

pub record TimeCondition : Type 0 where
  pub days : Text
  pub start : Text
  pub finish : Text

-- The answer of MatchDID.
pub record Destination : Type 0 where
  pub dest_type : Text
  pub dest_value : Text
  pub overflow : Text
  pub ivr_id : Text

abbrev pub no_destination : Destination
no_destination = record { dest_type = []; dest_value = []; overflow = []; ivr_id = [] }

-- s < t on strings.
unfoldable pub text_lt : Text → Text → Bool
text_lt s [] = false
text_lt [] (b ∷ t) = true
text_lt (a ∷ s) (b ∷ t) = ltb a b || ((a == b) && text_lt s t)

abbrev pub day_order : List Text
day_order = lit "mon" ∷ lit "tue" ∷ lit "wed" ∷ lit "thu" ∷ lit "fri" ∷ lit "sat" ∷ lit "sun" ∷ []

-- The index of a day in the order, plus one; 0 stands for the -1 of a name that is no day.
unfoldable pub day_index : Text → List Text → ℕ → ℕ
day_index d [] i = 0
day_index d (e ∷ days) i = if same e d then i + 1 else day_index d days (i + 1)

unfoldable pub in_range : Text → Text → Text → Bool
in_range first last today =
    let t = day_index today day_order 0 in
    leb (day_index first day_order 0) t && leb t (day_index last day_order 0)

unfoldable pub in_list : Text → List Text → Bool
in_list today [] = false
in_list today (d ∷ days) = same (trim_space d) today || in_list today days

-- A range "mon-fri" around the first dash, byte 45, or a list "mon,wed", the comma being byte 44.
unfoldable pub match_days : Text → Text → Bool
match_days days today = elim (cut 45 days) [
  | some (first, last) ↦ in_range first last today
  | none ↦ in_list today (split 44 days)
]

unfoldable pub match_hours : Text → Text → Text → Bool
match_hours start finish now =
    if is_empty start || is_empty finish
    then true
    else not (text_lt now start) && text_lt now finish

-- `parse` is json.Unmarshal; a condition that it cannot read always matches. Today is the name of the
-- day, now the time as hh:mm.
unfoldable pub match_time_condition : (Text → Option TimeCondition) → Text → Text → Text → Bool
match_time_condition parse today now cond = elim (parse cond) [
  | none ↦ true
  | some c ↦ (is_empty c.days || match_days c.days today) && match_hours c.start c.finish now
]

-- `regex` answers whether the pattern matches, none when it does not compile.
unfoldable pub match_pattern : (Text → Text → Option Bool) → Text → Text → Text → Bool
match_pattern regex number pattern match_type =
    if same match_type (lit "exact")
    then same number pattern
    else if same match_type (lit "prefix")
    then same pattern (lit "*") || has_prefix number (trim_suffix 42 pattern)
    else if same match_type (lit "regex")
    then (elim (regex pattern number) [ none ↦ false | some b ↦ b ])
    else same number pattern

abbrev pub trunk_fits : Option Text → Text → Bool
trunk_fits none trunk = true
trunk_fits (some t) trunk = same t trunk

-- The guards of the loop over the routes.
unfoldable pub route_applies :
    (Text → Text → Option Bool)
    → (Text → Option TimeCondition)
    → Text
    → Text
    → Text
    → Text
    → DidRoute
    → Bool
route_applies regex parse today now number trunk rt =
    trunk_fits rt.trunk_id trunk
    && (is_empty rt.time_condition || match_time_condition parse today now rt.time_condition)
    && match_pattern regex number rt.did_pattern rt.match_type

unfoldable pub destination_of : DidRoute → Destination
destination_of rt = record {
  dest_type = rt.destination_type;
  dest_value = rt.destination_value;
  overflow = rt.overflow_destination;
  ivr_id = elim rt.ivr_id [ none ↦ [] | some i ↦ i ];
}

unfoldable pub first_route : (DidRoute → Bool) → List DidRoute → Destination
first_route applies [] = no_destination
first_route applies (rt ∷ routes) =
    if applies rt then destination_of rt else first_route applies routes

unfoldable pub match_did :
    (Text → Text → Option Bool)
    → (Text → Option TimeCondition)
    → Text
    → Text
    → Text
    → Text
    → List DidRoute
    → Destination
match_did regex parse today now dialed trunk routes =
    let number = trim_space dialed in
    first_route (route_applies regex parse today now number trunk) routes
