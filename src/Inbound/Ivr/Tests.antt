-- ===== src/Inbound/Ivr/Tests.antt =====
-- A menu of gateway/ivr.go.
use voiceagent.Base.{ℕ, zero, suc, ◌≡◌, refl, Bool, false, [], ◌∷◌, some, Text, lit, same, get}
use voiceagent.Inbound.Ivr.{IvrFlow, run_ivr, run_nodes, visit, collect_attempts, attempts_of}
use voiceagent.Inbound.Ivr.Flows.{run_ivr-EndsAt, EndsAt}

abbrev menu : IvrFlow
menu = record {
  entry = lit "choose";
  nodes =
      (
        lit "choose",
        record {
          kind = lit "collect";
          prompt = lit "Press 1 for sales";
          next = [];
          timeout_ms = 0;
          retries = 2;
          dtmf_map = (lit "1", lit "sales") ∷ [];
          timeout_node = [];
          dest_type = [];
          dest_value = [];
        },
      )
      ∷ (
        lit "sales",
        record {
          kind = lit "transfer";
          prompt = [];
          next = [];
          timeout_ms = 0;
          retries = 0;
          dtmf_map = [];
          timeout_node = [];
          dest_type = lit "queue";
          dest_value = lit "Sales";
        },
      )
      ∷ [];
}

abbrev pressed : ℕ → ℕ → Text
pressed _ zero = lit "1"
pressed _ (suc _) = []

abbrev never : ℕ → Bool
never _ = false

-- The second attempt hears the digit.
chosen : run_ivr (some menu) pressed never ≡ (lit "queue", lit "Sales")
unfolding run_ivr run_nodes visit collect_attempts attempts_of same get
chosen = refl

run_ivr-EndsAt_example :
    EndsAt menu.nodes 20 menu.entry
      (run_ivr (some menu) pressed never).0
      (run_ivr (some menu) pressed never).1
run_ivr-EndsAt_example = run_ivr-EndsAt menu pressed never
