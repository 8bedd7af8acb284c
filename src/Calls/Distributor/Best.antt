-- ===== src/Calls/Distributor/Best.antt =====
-- The agent that findBestAgent in gateway/acd.go chooses.
use mathlib.Core.List.{Permᴰ}
use mathlib.Core.List.Permᴰ
use mathlib.Core.List.{Mem, mem-cons_self, mem-cons_of_mem}
use voiceagent.Base.{
  ℕ, suc, ◌+◌, ◌-◌, ◌*◌, ◌/◌, ◌^◌, ◌≤◌, ◌<◌, ◌≡◌, refl, ap, ◌∙◌, ◌↔◌, inl, inr, Bool, true, false,
  List, [], ◌∷◌, Option, none, some, if◌then◌else◌, arith, Text, same, trim_space, ℤ, pos, ◌-ℤ◌,
  ◌≤ℤ◌, All, All-Permᴰ, subst, Option-cases,
}
use voiceagent.Calls.Distributor.{
  AcdAgent, AcdScore, hits, hits_of, idle_bonus, is_wrapping_up, is_eligible, score_agent,
  candidates, first_agent, by_score, find_best_agent,
}

-- What sort.Slice asks of a comparison: that it and its negation are transitive, and that nothing is
-- before itself.
abbrev pub IsOrdering : (AcdScore → AcdScore → Bool) → Type 0
IsOrdering less =
    ((x : AcdScore) → less x x ≡ false)
    × ((x y z : AcdScore) → less x y ≡ true → less y z ≡ true → less x z ≡ true)
    × ((x y z : AcdScore) → less x y ≡ false → less y z ≡ false → less x z ≡ false)

-- Nothing is before what stands ahead of it.
abbrev pub IsSorted : (AcdScore → AcdScore → Bool) → List AcdScore → Type 0
IsSorted less [] = Unit
IsSorted less (x ∷ xs) = All (λ y. less y x ≡ false) xs × IsSorted less xs

-- At least 15 seconds have passed since the last call, if there was one.
abbrev pub IsRested : ℕ → Option ℕ → Type 0
IsRested now none = Unit
IsRested now (some ended) = 15 * 10 ^ 9 ≤ now - ended

-- Room for a call, and no wrapping up.
abbrev pub MayTake : ℕ → AcdAgent → Type 0
MayTake now a = (a.active_calls < a.max_calls) × IsRested now a.last_call_end

-- How many of the skills are the word, and how many pairs of words and skills agree.
unfoldable pub agreeing : Text → List Text → ℕ
agreeing word [] = 0
agreeing word (s ∷ skills) =
    let rest = agreeing word skills in
    if same (trim_space word) (trim_space s) then suc rest else rest

unfoldable pub matches : List Text → List Text → ℕ
matches [] skills = 0
matches (word ∷ expertise) skills = agreeing word skills + matches expertise skills

abbrev pub rest_points : ℕ → Option ℕ → ℕ
rest_points now none = 30
rest_points now (some ended) = (now - ended) / 10 ^ 9 / 10

-- Ten points for each agreement, five for each step of the priority and one for each 10 seconds of rest,
-- or thirty for an agent without a call before, less ten for each call.
abbrev pub merit : ℕ → List Text → AcdAgent → ℤ
merit now skills a =
    pos (10 * matches a.expertise skills + 5 * a.priority + rest_points now a.last_call_end)
    -ℤ pos (10 * a.active_calls)

-- No agent: nobody may take the call. An agent: one of the rows who may, and nobody who may has more merit.
abbrev pub IsBest : ℕ → List Text → List AcdAgent → Option AcdAgent → Type 0
IsBest now skills rows none = All (λ b. ¬ MayTake now b) rows
IsBest now skills rows (some a) =
    MayTake now a
    × Mem a rows
    × All (λ b. MayTake now b → merit now skills b ≤ℤ merit now skills a) rows

is_eligible-MayTake : (now : ℕ) (a : AcdAgent) → (is_eligible now a ≡ true) ↔ MayTake now a
unfolding is_eligible is_wrapping_up
is_eligible-MayTake now a = elim (Option-cases a.last_call_end) [
  | inl e ↦ rw (e) (ground arith)
  | inr (t, e) ↦ rw (e) (ground arith)
]

hits-cons :
    (skills : List Text) (word : Text) (expertise : List Text)
    → hits skills (word ∷ expertise) ≡ agreeing word skills + hits skills expertise
unfolding hits hits_of agreeing
hits-cons [] word expertise = refl
hits-cons (s ∷ skills) word expertise = ground (arith, hits-cons skills word expertise)

hits-nil : (skills : List Text) → hits skills [] ≡ 0
unfolding hits hits_of
hits-nil [] = refl
hits-nil (s ∷ skills) = omega (arith, hits-nil skills)

hits-matches : (skills expertise : List Text) → hits skills expertise ≡ matches expertise skills
unfolding matches
hits-matches skills [] = hits-nil skills
hits-matches skills (word ∷ expertise) =
    hits-cons skills word expertise
    ∙ ap (λ n. agreeing word skills + n) (hits-matches skills expertise)

idle_bonus-rest_points : (now : ℕ) (o : Option ℕ) → idle_bonus now o ≡ rest_points now o
unfolding idle_bonus
idle_bonus-rest_points now none = refl
idle_bonus-rest_points now (some ended) = refl

score_agent-merit :
    (now : ℕ) (skills : List Text) (a : AcdAgent) → score_agent now skills a ≡ merit now skills a
unfolding score_agent
score_agent-merit now skills a =
    rw (hits-matches skills a.expertise, idle_bonus-rest_points now a.last_call_end) refl

by_score-IsOrdering : IsOrdering by_score
unfolding by_score
by_score-IsOrdering =
    (λ x. ground arith, λ x y z h k. ground (arith, h, k), λ x y z h k. ground (arith, h, k))

IsSorted-below :
    (x : AcdScore) (ys : List AcdScore)
    → All (λ y. by_score y x ≡ false) ys
    → All (λ y. y.score ≤ℤ x.score) ys
unfolding by_score
IsSorted-below x [] h = tt
IsSorted-below x (y ∷ ys) (h, hs) = (ground (arith, h), IsSorted-below x ys hs)

All-map {ℓ κ ι} :
    {A : Type ℓ} {P : A → Type κ} {Q : A → Type ι} (f : (a : A) → P a → Q a) (xs : List A)
    → All P xs
    → All Q xs
All-map f [] ps = tt
All-map f (x ∷ xs) (p, ps) = (f x p, All-map f xs ps)

All-Mem {ℓ} : {A : Type ℓ} (xs : List A) → All (λ a. Mem a xs) xs
All-Mem [] = tt
All-Mem (x ∷ xs) = (mem-cons_self, All-map (λ a m. mem-cons_of_mem x m) xs (All-Mem xs))

All-if {ℓ κ} :
    {A : Type ℓ} (P : A → Type κ) (x : A) (xs : List A) (b : Bool)
    → (b ≡ true → P x)
    → All P xs
    → All P (if b then x ∷ xs else xs)
All-if P x xs true p ps = (p refl, ps)
All-if P x xs false p ps = ps

if-All {ℓ κ} :
    {A : Type ℓ} (P : A → Type κ) (x : A) (xs : List A) (b : Bool)
    → All P (if b then x ∷ xs else xs)
    → (b ≡ true → P x) × All P xs
if-All P x xs true ps = (λ _. ps.0, ps.1)
if-All P x xs false ps = (λ (e : false ≡ true). ground (arith, e), ps)

abbrev Scored : ℕ → List Text → (AcdAgent → Type 0) → AcdScore → Type 0
Scored now skills Q x =
    (is_eligible now x.agent ≡ true) × (x.score ≡ score_agent now skills x.agent) × Q x.agent

-- Every candidate is a row that may take the call, with its score.
candidates-Scored :
    (now : ℕ) (skills : List Text) (Q : AcdAgent → Type 0) (rows : List AcdAgent)
    → All Q rows
    → All (Scored now skills Q) (candidates now skills rows)
unfolding candidates
candidates-Scored now skills Q [] qs = tt
candidates-Scored now skills Q (a ∷ rows) (q, qs) =
    All-if (Scored now skills Q) (record { agent = a; score = score_agent now skills a })
      (candidates now skills rows) (is_eligible now a) (λ e. (e, refl, q))
      (candidates-Scored now skills Q rows qs)

-- What holds of every candidate's score holds of the score of every row that may take the call.
All-candidates :
    (now : ℕ) (skills : List Text) (P : ℤ → Type 0) (rows : List AcdAgent)
    → All (λ x. P x.score) (candidates now skills rows)
    → All (λ b. is_eligible now b ≡ true → P (score_agent now skills b)) rows
unfolding candidates
All-candidates now skills P [] ps = tt
All-candidates now skills P (a ∷ rows) ps =
    let both =
      if-All (λ x. P x.score) (record { agent = a; score = score_agent now skills a })
        (candidates now skills rows) (is_eligible now a) ps in
    (both.0, All-candidates now skills P rows both.1)

first_agent-IsBest :
    (now : ℕ) (skills : List Text) (rows : List AcdAgent) (sorted : List AcdScore)
    → Permᴰ sorted (candidates now skills rows)
    → IsSorted by_score sorted
    → IsBest now skills rows (first_agent sorted)
first_agent-IsBest now skills rows [] permutes ordered =
    All-map (λ b out may. out ((is_eligible-MayTake now b).1 may)) rows
      (All-candidates now skills (λ _. ⊥) rows (All-Permᴰ (λ _. ⊥) permutes tt))
first_agent-IsBest now skills rows (x ∷ xs) permutes (above, rest) =
    let scored =
      All-Permᴰ (Scored now skills (λ a. Mem a rows)) (Permᴰ.symm permutes)
        (candidates-Scored now skills (λ a. Mem a rows) rows (All-Mem rows)) in
    let bounded =
      All-Permᴰ (λ y. y.score ≤ℤ x.score) permutes (omega arith, IsSorted-below x xs above) in
    let top = scored.0.1 ∙ score_agent-merit now skills x.agent in
    (
      (is_eligible-MayTake now x.agent).0 scored.0.0,
      scored.0.2,
      All-map
          (λ b below may.
            subst (λ s. merit now skills b ≤ℤ s) top
              (subst (λ s. s ≤ℤ x.score) (score_agent-merit now skills b)
                (below ((is_eligible-MayTake now b).1 may))))
          rows (All-candidates now skills (λ s. s ≤ℤ x.score) rows bounded),
    )

-- When sort.Slice, for a comparison that is an ordering, returns its argument's elements sorted by it,
-- findBestAgent answers an agent of the queue who has fewer calls than the most allowed and has rested
-- for 15 seconds since the last call, if any, and than whom no such agent has more merit, which is ten
-- points for each skill that agrees, five for each step of the priority, one for each 10 seconds of rest,
-- or thirty where there was no call before, and ten less for each call; it answers none only when no agent
-- of the queue may take the call.
pub find_best_agent-IsBest :
    (sort_slice : (AcdScore → AcdScore → Bool) → List AcdScore → List AcdScore)
    → ((less : AcdScore → AcdScore → Bool) (xs : List AcdScore) → Permᴰ (sort_slice less xs) xs)
    → ((less : AcdScore → AcdScore → Bool) (xs : List AcdScore)
        → IsOrdering less
        → IsSorted less (sort_slice less xs))
    → (now : ℕ) (skills : List Text) (rows : List AcdAgent)
    → IsBest now skills rows (find_best_agent sort_slice now skills rows)
unfolding find_best_agent
find_best_agent-IsBest sort_slice permutes sorts now skills rows =
    first_agent-IsBest now skills rows (sort_slice by_score (candidates now skills rows))
      (permutes by_score _) (sorts by_score _ by_score-IsOrdering)
