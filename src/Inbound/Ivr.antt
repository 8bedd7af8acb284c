-- ===== src/Inbound/Ivr.antt =====
-- The menus of gateway/ivr.go: RunIVR, and what collectDTMF hears.
pub mod Flows
pub mod Deaf
mod Tests
use voiceagent.Base.{
  ℕ, zero, suc, ◌-◌, Bool, true, false, ◌&&◌, not, List, [], ◌∷◌, ◌++◌, Option, none, some,
  if◌then◌else◌, Text, lit, same, is_empty, get, take,
}
use voiceagent.Inbound.Dtmf.{KeyStep, new_dtmf_collector, collect_all}

-- `retries` and `timeout_ms` are the values of the JSON when positive, and 0 for the others.
pub record IvrNode : Type 0 where
  pub kind : Text
  pub prompt : Text
  pub next : Text
  pub timeout_ms : ℕ
  pub retries : ℕ
  pub dtmf_map : List (Text × Text)
  pub timeout_node : Text
  pub dest_type : Text
  pub dest_value : Text

pub record IvrFlow : Type 0 where
  pub entry : Text
  pub nodes : List (Text × IvrNode)

-- What a node makes RunIVR do: go to the node of that name, or return the destination.
pub data Turn : Type 0 where
  go_to : Text → Turn
  leave : Text → Text → Turn

-- The attempts of a "collect" node, `left` of them still to come and the last with `left` 1; the
-- digits heard are the answers of collectDTMF, [] for none. The node is entered again when the loop
-- ends without a choice.
unfoldable pub collect_attempts : IvrNode → Text → ℕ → (ℕ → Text) → Turn
collect_attempts node current zero heard = go_to current
collect_attempts node current (suc left) heard =
    let digit = heard left in
    let again = collect_attempts node current left heard in
    let timed_out : Turn =
      if is_empty node.timeout_node then leave [] [] else go_to node.timeout_node in
    let last_or_again : Turn = elim left [ zero ↦ timed_out | suc _ ↦ again ] in
    if is_empty digit
    then last_or_again
    else elim (get digit node.dtmf_map) [ some next_node ↦ go_to next_node | none ↦ last_or_again ]

unfoldable pub attempts_of : ℕ → ℕ
attempts_of zero = 1
attempts_of (suc n) = suc n

-- The switch on the node's type.
unfoldable pub visit : IvrNode → Text → (ℕ → Text) → Turn
visit node current heard =
    if same node.kind (lit "play")
    then (if is_empty node.next then leave [] [] else go_to node.next)
    else if same node.kind (lit "collect")
    then collect_attempts node current (attempts_of node.retries) heard
    else if same node.kind (lit "transfer")
    then leave node.dest_type node.dest_value
    else if same node.kind (lit "hangup")
    then leave (lit "hangup") []
    else leave [] []

-- The loop over at most 20 nodes: `heard i` are the digits heard at its node number 20 - i, and
-- `cancelled i` says whether the context is done there.
unfoldable pub run_nodes :
    List (Text × IvrNode) → ℕ → Text → (ℕ → ℕ → Text) → (ℕ → Bool) → Text × Text
run_nodes nodes zero current heard cancelled = ([], [])
run_nodes nodes (suc left) current heard cancelled =
    if cancelled left then ([], []) else elim (get current nodes) [
      | none ↦ ([], [])
      | some node ↦ elim (visit node current (heard left)) [
        | go_to next_node ↦ run_nodes nodes left next_node heard cancelled
        | leave dest_type dest_value ↦ (dest_type, dest_value)
      ]
    ]

abbrev pub no_nodes : List (Text × IvrNode) → Bool
no_nodes [] = true
no_nodes (x ∷ xs) = false

unfoldable pub run_ivr : Option IvrFlow → (ℕ → ℕ → Text) → (ℕ → Bool) → Text × Text
run_ivr none heard cancelled = ([], [])
run_ivr (some flow) heard cancelled =
    if is_empty flow.entry
    then ([], [])
    else if no_nodes flow.nodes
    then ([], [])
    else run_nodes flow.nodes 20 flow.entry heard cancelled

-- The first digit of the first sequence that the callback receives.
abbrev pub first_digit : List Text → Text
first_digit [] = []
first_digit (t ∷ ts) = if is_empty t then first_digit ts else take 1 t

-- collectDTMF makes a collector and waits for its callback until the timeout; the steps are what
-- happens to that collector meanwhile.
unfoldable pub collect_dtmf : Bool → ℕ → List KeyStep → Text
collect_dtmf listening timeout steps =
    if listening then first_digit (collect_all steps (new_dtmf_collector timeout true)).1 else []
