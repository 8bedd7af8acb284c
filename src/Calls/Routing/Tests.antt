-- ===== src/Calls/Routing/Tests.antt =====
-- Two agents of a queue.
use voiceagent.Base.{refl, true, List, [], ◌∷◌, Option, none, some, pos, Text, lit, to_lower}
use voiceagent.Calls.Routing.{RoutedAgent, score_all, language_or_default, route_call}
use voiceagent.Calls.Routing.Sorting.{IsTop, route_call-IsTop}

abbrev eve : RoutedAgent
eve = record {
  agent_id = lit "a1";
  name = lit "eve";
  expertise = lit "refund" ∷ [];
  languages = [];
  priority = pos 1;
  current_calls = pos 2;
}

abbrev max_agent : RoutedAgent
max_agent = record {
  agent_id = lit "a2";
  name = lit "max";
  expertise = lit "refund" ∷ [];
  languages = [];
  priority = pos 1;
  current_calls = pos 0;
}

abbrev staff : Text → Option (List RoutedAgent)
staff queue = some (eve ∷ max_agent ∷ [])

route_call-IsTop_example :
    IsTop
      (score_all (to_lower (lit "Refund")) (language_or_default []) (eve ∷ max_agent ∷ []))
      (route_call true none staff (lit "Refund") []).0
route_call-IsTop_example = route_call-IsTop none staff (lit "Refund") [] (eve ∷ max_agent ∷ []) refl
