-- ===== src/Inbound/Did/Tests.antt =====
-- Routes of gateway/did_routing.go.
use voiceagent.Base.{
  ◌≡◌, refl, Bool, [], ◌∷◌, Option, none, some, Text, lit, same, has_prefix, trim_suffix,
  trim_space, trim_left,
}
use voiceagent.Inbound.Did.{
  DidRoute, TimeCondition, match_did, match_pattern, route_applies, first_route, destination_of,
}
use voiceagent.Inbound.Did.Matching.{match_did-FirstMatch, FirstMatch}

abbrev no_regex : Text → Text → Option Bool
no_regex _ _ = none

abbrev weekend : TimeCondition
weekend = record { days = lit "fri-mon"; start = []; finish = [] }

abbrev always_weekend : Text → Option TimeCondition
always_weekend _ = some weekend

abbrev sales_line : DidRoute
sales_line = record {
  did_pattern = lit "+1800*";
  match_type = lit "prefix";
  trunk_id = none;
  destination_type = lit "queue";
  destination_value = lit "Sales";
  overflow_destination = [];
  time_condition = [];
  ivr_id = none;
}

dialed :
    match_did no_regex always_weekend
      (lit "mon")
      (lit "10:00")
      (lit " +1800555")
      []
      (sales_line ∷ [])
    ≡ destination_of sales_line
unfolding match_did first_route route_applies match_pattern same has_prefix trim_suffix trim_space
    trim_left
dialed = refl

match_did-FirstMatch_example :
    FirstMatch no_regex always_weekend
      (lit "mon")
      (lit "10:00")
      (trim_space (lit " +1800555"))
      []
      (sales_line ∷ [])
      (match_did no_regex always_weekend
        (lit "mon")
        (lit "10:00")
        (lit " +1800555")
        []
        (sales_line ∷ []))
match_did-FirstMatch_example =
    match_did-FirstMatch no_regex always_weekend (lit "mon") (lit "10:00") (lit " +1800555") []
      (sales_line ∷ [])
