-- ===== src/Inbound/Ivr/Flows.antt =====
-- Where RunIVR of gateway/ivr.go can end.
use voiceagent.Base.{
  ℕ, zero, suc, ◌≡◌, refl, same_iff, if_elim, ◌⊎◌, inl, inr, Bool, List, [], Option, none, some,
  if◌then◌else◌, Text, lit, same, is_empty, get,
}
use voiceagent.Inbound.Ivr.{
  IvrNode, IvrFlow, Turn, go_to, leave, collect_attempts, attempts_of, visit, run_nodes, run_ivr,
  no_nodes,
}

-- One move of a caller through a menu, as the flow's author writes it down.
pub data Leads (nodes : List (Text × IvrNode)) : Text → Text → Type 0 where
  by_play :
      {a : Text} (n : IvrNode) → get a nodes ≡ some n → n.kind ≡ lit "play" → Leads nodes a n.next
  by_digit :
      {a b : Text} (n : IvrNode) (digit : Text)
      → get a nodes ≡ some n
      → n.kind ≡ lit "collect"
      → get digit n.dtmf_map ≡ some b
      → Leads nodes a b
  by_timeout :
      {a : Text} (n : IvrNode)
      → get a nodes ≡ some n
      → n.kind ≡ lit "collect"
      → Leads nodes a n.timeout_node

-- A chain of at most so many moves.
pub data Reaches (nodes : List (Text × IvrNode)) : ℕ → Text → Text → Type 0 where
  here : {k : ℕ} {a : Text} → Reaches nodes k a a
  onward :
      {k : ℕ} {a b c : Text} → Leads nodes a b → Reaches nodes k b c → Reaches nodes (suc k) a c

-- How a menu may end at a node: with nothing, a hangup or, at a "transfer" node, its destination.
abbrev pub Ending : IvrNode → Text → Text → Type 0
Ending n t v =
    ((t ≡ []) × (v ≡ []))
    ⊎ ((n.kind ≡ lit "hangup") × (t ≡ lit "hangup") × (v ≡ []))
    ⊎ ((n.kind ≡ lit "transfer") × (t ≡ n.dest_type) × (v ≡ n.dest_value))

abbrev TurnOf : List (Text × IvrNode) → Text → IvrNode → Turn → Type 0
TurnOf nodes a n (go_to b) = Leads nodes a b
TurnOf nodes a n (leave t v) = Ending n t v

timed_out-TurnOf :
    (nodes : List (Text × IvrNode)) (a : Text) (n : IvrNode)
    → get a nodes ≡ some n
    → n.kind ≡ lit "collect"
    → TurnOf nodes a n (if is_empty n.timeout_node then leave [] [] else go_to n.timeout_node)
timed_out-TurnOf nodes a n found kind =
    if_elim (TurnOf nodes a n) _ _ (is_empty n.timeout_node) (λ _. inl (refl, refl))
      (λ _. by_timeout n found kind)

digit-TurnOf :
    (nodes : List (Text × IvrNode)) (a : Text) (n : IvrNode) (digit : Text) (other : Turn)
    (o : Option Text)
    → get a nodes ≡ some n
    → n.kind ≡ lit "collect"
    → get digit n.dtmf_map ≡ o
    → TurnOf nodes a n other
    → TurnOf nodes a n (elim o [ some next_node ↦ go_to next_node | none ↦ other ])
digit-TurnOf nodes a n digit other none found kind e p = p
digit-TurnOf nodes a n digit other (some b) found kind e p = by_digit n digit found kind e

collect_attempts-TurnOf :
    (nodes : List (Text × IvrNode)) (a : Text) (n : IvrNode) (left : ℕ) (heard : ℕ → Text)
    → get a nodes ≡ some n
    → n.kind ≡ lit "collect"
    → TurnOf nodes a n (collect_attempts n a (suc left) heard)
unfolding collect_attempts
collect_attempts-TurnOf nodes a n zero heard found kind =
    let out = timed_out-TurnOf nodes a n found kind in
    if_elim (TurnOf nodes a n) _ _ (is_empty (heard 0)) (λ _. out)
      (λ _. digit-TurnOf nodes a n (heard 0) _ _ found kind refl out)
collect_attempts-TurnOf nodes a n (suc left) heard found kind =
    let again = collect_attempts-TurnOf nodes a n left heard found kind in
    if_elim (TurnOf nodes a n) _ _ (is_empty (heard (suc left))) (λ _. again)
      (λ _. digit-TurnOf nodes a n (heard (suc left)) _ _ found kind refl again)

visit-TurnOf :
    (nodes : List (Text × IvrNode)) (a : Text) (n : IvrNode) (heard : ℕ → Text)
    → get a nodes ≡ some n
    → TurnOf nodes a n (visit n a heard)
unfolding visit attempts_of
visit-TurnOf nodes a n heard found =
    let turn = if_elim (TurnOf nodes a n) in
    turn _ _ (same n.kind (lit "play"))
      (λ e.
        turn _ _ (is_empty n.next) (λ _. inl (refl, refl))
          (λ _. by_play n found ((same_iff n.kind (lit "play")).0 e)))
      (λ _.
        turn _ _ (same n.kind (lit "collect"))
          (λ e. attempts-TurnOf n.retries ((same_iff n.kind (lit "collect")).0 e))
          (λ _.
            turn _ _ (same n.kind (lit "transfer"))
              (λ e. inr (inr ((same_iff n.kind (lit "transfer")).0 e, refl, refl)))
              (λ _.
                turn _ _ (same n.kind (lit "hangup"))
                  (λ e. inr (inl ((same_iff n.kind (lit "hangup")).0 e, refl, refl)))
                  (λ _. inl (refl, refl)))))
  where
    attempts-TurnOf :
        (r : ℕ)
        → n.kind ≡ lit "collect"
        → TurnOf nodes a n (collect_attempts n a (attempts_of r) heard)
    attempts-TurnOf zero kind = collect_attempts-TurnOf nodes a n 0 heard found kind
    attempts-TurnOf (suc r) kind = collect_attempts-TurnOf nodes a n r heard found kind

-- Either no destination, or that of a node that some moves of the flow reach.
abbrev pub EndsAt : List (Text × IvrNode) → ℕ → Text → Text → Text → Type 0
EndsAt nodes k a t v =
    ((t ≡ []) × (v ≡ []))
    ⊎ ((b : Text) × (n : IvrNode) × Reaches nodes k a b × (get b nodes ≡ some n) × Ending n t v)

abbrev EndsWell : List (Text × IvrNode) → ℕ → Text → Text × Text → Type 0
EndsWell nodes k a r = EndsAt nodes k a r.0 r.1

move-EndsWell :
    {nodes : List (Text × IvrNode)} {k : ℕ} {a b : Text} (r : Text × Text)
    → Leads nodes a b
    → EndsWell nodes k b r
    → EndsWell nodes (suc k) a r
move-EndsWell r l (inl e) = inl e
move-EndsWell r l (inr (c, n, path, found, ending)) = inr (c, n, onward l path, found, ending)

turn-EndsWell :
    (nodes : List (Text × IvrNode)) (k : ℕ) (a : Text) (n : IvrNode) (next_run : Text → Text × Text)
    → get a nodes ≡ some n
    → ((b : Text) → EndsWell nodes k b (next_run b))
    → (turn : Turn) → TurnOf nodes a n turn
    → EndsWell nodes (suc k) a (elim turn [ go_to b ↦ next_run b | leave t v ↦ (t, v) ])
turn-EndsWell nodes k a n next_run found rest (go_to b) l = move-EndsWell (next_run b) l (rest b)
turn-EndsWell nodes k a n next_run found rest (leave t v) ending = inr (a, n, here, found, ending)

node-EndsWell :
    (nodes : List (Text × IvrNode)) (k : ℕ) (a : Text) (heard : ℕ → Text)
    (next_run : Text → Text × Text)
    → ((b : Text) → EndsWell nodes k b (next_run b))
    → (o : Option IvrNode) → get a nodes ≡ o
    → EndsWell nodes (suc k) a (elim o [
      | none ↦ ([], [])
      | some node ↦ elim (visit node a heard) [ go_to b ↦ next_run b | leave t v ↦ (t, v) ]
    ])
node-EndsWell nodes k a heard next_run rest none found = inl (refl, refl)
node-EndsWell nodes k a heard next_run rest (some n) found =
    turn-EndsWell nodes k a n next_run found rest (visit n a heard)
      (visit-TurnOf nodes a n heard found)

run_nodes-EndsWell :
    (nodes : List (Text × IvrNode)) (k : ℕ) (a : Text) (heard : ℕ → ℕ → Text) (cancelled : ℕ → Bool)
    → EndsWell nodes k a (run_nodes nodes k a heard cancelled)
unfolding run_nodes
run_nodes-EndsWell nodes zero a heard cancelled = inl (refl, refl)
run_nodes-EndsWell nodes (suc k) a heard cancelled =
    if_elim (EndsWell nodes (suc k) a) _ _ (cancelled k) (λ _. inl (refl, refl))
      (λ _.
        node-EndsWell nodes k a (heard k) (λ b. run_nodes nodes k b heard cancelled)
          (λ b. run_nodes-EndsWell nodes k b heard cancelled) (get a nodes) refl)

-- Whatever a caller presses and whenever the call is cancelled, RunIVR answers no destination, or the
-- hangup or the transfer of a node that at most 20 moves of the flow reach from its entry.
pub run_ivr-EndsAt :
    (flow : IvrFlow) (heard : ℕ → ℕ → Text) (cancelled : ℕ → Bool)
    → EndsAt flow.nodes 20 flow.entry
        (run_ivr (some flow) heard cancelled).0
        (run_ivr (some flow) heard cancelled).1
unfolding run_ivr
run_ivr-EndsAt flow heard cancelled =
    let ends = if_elim (EndsWell flow.nodes 20 flow.entry) in
    ends _ _ (is_empty flow.entry) (λ _. inl (refl, refl))
      (λ _.
        ends _ _ (no_nodes flow.nodes) (λ _. inl (refl, refl))
          (λ _. run_nodes-EndsWell flow.nodes 20 flow.entry heard cancelled))
