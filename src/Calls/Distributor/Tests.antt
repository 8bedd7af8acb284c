-- ===== src/Calls/Distributor/Tests.antt =====
-- Two agents and two queues of gateway/acd.go.
use mathlib.Core.List.{Permᴰ}
use mathlib.Core.List.Permᴰ
use voiceagent.Base.{
  All-Permᴰ, ℕ, ◌+◌, ◌*◌, ◌-◌, ◌≡◌, ◌≤◌, refl, ◌⊎◌, inl, inr, Bool, true, false, List, [], ◌∷◌,
  Option, none, some, if◌then◌else◌, arith, if_elim, Bool-cases, Text, lit, same, get, leb, ◌≤ℤ◌,
  ltb_ℤ, All,
}
use voiceagent.Calls.Queue.{QueueEntry, QueueManager}
use voiceagent.Calls.Distributor.{
  AcdAgent, AcdScore, RingingCalls, second, find_best_agent, process_queues, score_agent,
  is_eligible, candidates, hits, hits_of, AgentRow, AgentStatus, on_call, available, on_call_start,
  on_call_end,
}
use voiceagent.Calls.Distributor.Best.{IsBest, IsOrdering, IsSorted, find_best_agent-IsBest}
use voiceagent.Calls.Distributor.Ringing.{process_queues-once, rings_of}

abbrev eve : AcdAgent
eve = record {
  id = lit "eve";
  name = lit "Eve";
  expertise = lit "billing" ∷ [];
  active_calls = 0;
  max_calls = 2;
  priority = 1;
  last_call_end = none;
}

abbrev only_eve : Text → Option AcdAgent
only_eve _ = some eve

abbrev caller : QueueEntry
caller = record {
  id = lit "q-1";
  call_id = lit "anna";
  number = lit "100";
  wait_sec = 4;
  reason = [];
  priority = lit "normal";
  queue_name = lit "Sales";
  enter_time = 0;
}

abbrev two_queues : QueueManager
two_queues =
    (lit "Sales", record { name = lit "Sales"; avg_handle = []; sla = 92; callers = caller ∷ [] })
    ∷ (
      lit "Support",
      record { name = lit "Support"; avg_handle = []; sla = 92; callers = caller ∷ [] },
    )
    ∷ []

-- The scores, ten for the skill, five for the priority and thirty for an agent without a call.
score_of_eve : score_agent 0 (lit "billing" ∷ []) eve ≡ voiceagent.Base.pos 45
unfolding score_agent hits hits_of same voiceagent.Base.◌-ℤ◌ voiceagent.Base.trim_space
    voiceagent.Calls.Distributor.idle_bonus
score_of_eve = refl

process_queues-once_example :
    (rings_of (lit "anna") (process_queues only_eve (7 * second) two_queues []).1 ≡ 0)
    ⊎ ((rings_of (lit "anna") (process_queues only_eve (7 * second) two_queues []).1 ≡ 1)
        × (get (lit "anna") (process_queues only_eve (7 * second) two_queues []).0
            ≡ some (7 * second)))
process_queues-once_example = process_queues-once only_eve (7 * second) (lit "anna") two_queues []

-- A sort by insertion, to show that sort.Slice can do what is asked of it.
unfoldable insert : (AcdScore → AcdScore → Bool) → AcdScore → List AcdScore → List AcdScore
insert less x [] = x ∷ []
insert less x (y ∷ ys) = let rest = insert less x ys in if less y x then y ∷ rest else x ∷ y ∷ ys

unfoldable insertion_sort : (AcdScore → AcdScore → Bool) → List AcdScore → List AcdScore
insertion_sort less [] = []
insertion_sort less (x ∷ xs) = insert less x (insertion_sort less xs)

if-Permᴰ :
    (b : Bool) {xs ys zs : List AcdScore}
    → Permᴰ xs zs
    → Permᴰ ys zs
    → Permᴰ (if b then xs else ys) zs
if-Permᴰ true p q = p
if-Permᴰ false p q = q

module _ (less : AcdScore → AcdScore → Bool) where
  insert-Permᴰ : (x : AcdScore) (xs : List AcdScore) → Permᴰ (insert less x xs) (x ∷ xs)
  unfolding insert
  insert-Permᴰ x [] = Permᴰ.refl (x ∷ [])
  insert-Permᴰ x (y ∷ ys) =
      if-Permᴰ (less y x) (Permᴰ.trans (Permᴰ.cons refl (insert-Permᴰ x ys)) (Permᴰ.swap refl refl))
        (Permᴰ.refl (x ∷ y ∷ ys))

  insertion_sort-Permᴰ : (xs : List AcdScore) → Permᴰ (insertion_sort less xs) xs
  unfolding insertion_sort
  insertion_sort-Permᴰ [] = Permᴰ.nil
  insertion_sort-Permᴰ (x ∷ xs) =
      Permᴰ.trans (insert-Permᴰ x (insertion_sort less xs))
        (Permᴰ.cons refl (insertion_sort-Permᴰ xs))

  module _ (ordering : IsOrdering less) where
    behind_both :
        (x y : AcdScore) (ys : List AcdScore)
        → less y x ≡ false
        → All (λ z. less z y ≡ false) ys
        → All (λ z. less z x ≡ false) ys
    behind_both x y [] h hs = tt
    behind_both x y (z ∷ ys) h (k, hs) = (ordering.2 z y x k h, behind_both x y ys h hs)

    asymmetric : (x y : AcdScore) → less y x ≡ true → less x y ≡ false
    asymmetric x y h = elim (Bool-cases (less x y)) [
      | inl k ↦ absurd (ground (arith, ordering.1 x y x k h, ordering.0 x))
      | inr k ↦ k
    ]

    insert-IsSorted :
        (x : AcdScore) (ys : List AcdScore) → IsSorted less ys → IsSorted less (insert less x ys)
    unfolding insert
    insert-IsSorted x [] d = (tt, tt)
    insert-IsSorted x (y ∷ ys) (d, ds) =
        if_elim (IsSorted less) _ _ (less y x)
          (λ h. (
            All-Permᴰ (λ z. less z y ≡ false) (Permᴰ.symm (insert-Permᴰ x ys))
                (asymmetric x y h, d),
            insert-IsSorted x ys ds,
          ))
          (λ h. ((h, behind_both x y ys h d), (d, ds)))

    insertion_sort-IsSorted : (xs : List AcdScore) → IsSorted less (insertion_sort less xs)
    unfolding insertion_sort
    insertion_sort-IsSorted [] = tt
    insertion_sort-IsSorted (x ∷ xs) =
        insert-IsSorted x (insertion_sort less xs) (insertion_sort-IsSorted xs)

find_best_agent-IsBest_example :
    IsBest 0
      (lit "billing" ∷ [])
      (eve ∷ [])
      (find_best_agent insertion_sort 0 (lit "billing" ∷ []) (eve ∷ []))
find_best_agent-IsBest_example =
    find_best_agent-IsBest insertion_sort insertion_sort-Permᴰ
      (λ less xs ordering. insertion_sort-IsSorted less ordering xs) 0 (lit "billing" ∷ [])
      (eve ∷ [])
