-- ===== src/Calls/Routing/Sorting.antt =====
-- The order of the agents in gateway/routing.go and the one that a call is routed to.
use mathlib.Core.List.{Permᴰ, Mem, mem-cons_self}
use mathlib.Core.List.Permᴰ
use voiceagent.Base.{
  All-Permᴰ, ℕ, zero, suc, ◌≤◌, ◌≡◌, refl, true, List, [], ◌∷◌, Option, none, some, if◌then◌else◌,
  length, ltb_ℤ, All, arith, ◌≤ℤ◌, Text, lit, is_empty, to_lower, Bool-cases, Option-cases, inl,
  inr,
}
use voiceagent.Calls.Routing.{
  AgentScore, RoutedAgent, QueueRow, exchange, sweep, sort_from, score_all, score_agents,
  language_or_default, first_of, match_queue, route_call,
}

abbrev NoMore : AgentScore → AgentScore → Type 0
NoMore top y = y.score ≤ℤ top.score

abbrev pub Descending : List AgentScore → Type 0
Descending [] = Unit
Descending (x ∷ xs) = All (NoMore x) xs × Descending xs

exchange-order :
    (x y : AgentScore) → NoMore (exchange x y).0 (exchange x y).1 × (NoMore (exchange x y).0 x)
exchange-order x y = elim (Bool-cases (ltb_ℤ x.score y.score)) [
  | inl e ↦ rw (e) (ground (arith, e), ground (arith, e))
  | inr e ↦ rw (e) (ground (arith, e), ground arith)
]

exchange-Permᴰ :
    (x y : AgentScore) (ys : List AgentScore)
    → Permᴰ ((exchange x y).1 ∷ (exchange x y).0 ∷ ys) (x ∷ y ∷ ys)
exchange-Permᴰ x y ys = elim (Bool-cases (ltb_ℤ x.score y.score)) [
  | inl e ↦ rw (e) (Permᴰ.refl (x ∷ y ∷ ys))
  | inr e ↦ rw (e) (Permᴰ.swap refl refl)
]

sweep-Permᴰ :
    (x : AgentScore) (xs : List AgentScore) → Permᴰ ((sweep x xs).0 ∷ (sweep x xs).1) (x ∷ xs)
unfolding sweep
sweep-Permᴰ x [] = Permᴰ.refl (x ∷ [])
sweep-Permᴰ x (y ∷ ys) =
    Permᴰ.trans (Permᴰ.swap refl refl)
      (Permᴰ.trans (Permᴰ.cons refl (sweep-Permᴰ (exchange x y).0 ys)) (exchange-Permᴰ x y ys))

sweep_top :
    (x : AgentScore) (xs : List AgentScore)
    → NoMore (sweep x xs).0 x × All (NoMore (sweep x xs).0) (sweep x xs).1
unfolding sweep
sweep_top x [] = (omega arith, tt)
sweep_top x (y ∷ ys) =
    let (low, from) = exchange-order x y in
    let (up, rest) = sweep_top (exchange x y).0 ys in
    (omega (arith, from, up), (omega (arith, low, up), rest))

length-sweep : (x : AgentScore) (xs : List AgentScore) → length (sweep x xs).1 ≡ length xs
unfolding sweep
length-sweep x [] = refl
length-sweep x (y ∷ ys) = ground (arith, length-sweep (exchange x y).0 ys)

sort_from-Permᴰ : (n : ℕ) (xs : List AgentScore) → Permᴰ (sort_from n xs) xs
unfolding sort_from
sort_from-Permᴰ zero xs = Permᴰ.refl xs
sort_from-Permᴰ (suc n) [] = Permᴰ.refl []
sort_from-Permᴰ (suc n) (x ∷ xs) =
    Permᴰ.trans (Permᴰ.cons refl (sort_from-Permᴰ n (sweep x xs).1)) (sweep-Permᴰ x xs)

sort_from-Descending : (n : ℕ) (xs : List AgentScore) → length xs ≤ n → Descending (sort_from n xs)
unfolding sort_from
sort_from-Descending zero [] h = tt
sort_from-Descending zero (x ∷ xs) h = absurd (omega arith)
sort_from-Descending (suc n) [] h = tt
sort_from-Descending (suc n) (x ∷ xs) h = (
  All-Permᴰ (NoMore (sweep x xs).0) (Permᴰ.symm (sort_from-Permᴰ n (sweep x xs).1))
      (sweep_top x xs).1,
  sort_from-Descending n (sweep x xs).1 (omega (arith, h, length-sweep x xs)),
)

length-score_all :
    (intent language : Text) (rows : List RoutedAgent)
    → length (score_all intent language rows) ≡ length rows
unfolding score_all
length-score_all intent language [] = refl
length-score_all intent language (a ∷ rows) = ground (arith, length-score_all intent language rows)

-- The agents are listed with their scores in descending order, each row once.
pub score_agents-Descending :
    (intent language : Text) (rows : List RoutedAgent)
    → Descending (score_agents intent language rows)
      × Permᴰ
          (score_agents intent language rows)
          (score_all (to_lower intent) (language_or_default language) rows)
unfolding score_agents
score_agents-Descending intent language rows =
    let scores = score_all (to_lower intent) (language_or_default language) rows in
    (
      sort_from-Descending (length rows) scores
          (omega (arith, length-score_all (to_lower intent) (language_or_default language) rows)),
      sort_from-Permᴰ (length rows) scores,
    )

-- Nobody of none, or one of the scores, which none of the scores exceeds.
unfoldable pub IsTop : List AgentScore → Option AgentScore → Type 0
IsTop scores none = scores ≡ []
IsTop scores (some a) = Mem a scores × All (NoMore a) scores

first_of-IsTop :
    (sorted scores : List AgentScore)
    → Descending sorted
    → Permᴰ sorted scores
    → IsTop scores (first_of sorted)
unfolding IsTop first_of
first_of-IsTop [] [] d p = refl
first_of-IsTop [] (x ∷ xs) d p = absurd (omega (arith, (All-Permᴰ (λ y. 1 ≤ 0) p tt).0))
first_of-IsTop (a ∷ rest) scores (top, d) p =
    (Permᴰ.mem p mem-cons_self, All-Permᴰ (NoMore a) p (omega arith, top))

-- With a database whose query of the queue's agents succeeds, a call is routed to an agent whose score
-- no available agent of that queue exceeds, and to nobody only when the queue has none available.
pub route_call-IsTop :
    (queues : Option (List QueueRow)) (agents_of : Text → Option (List RoutedAgent))
    (intent language : Text) (rows : List RoutedAgent)
    → agents_of (route_call true queues agents_of intent language).1 ≡ some rows
    → IsTop
        (score_all (to_lower intent) (language_or_default language) rows)
        (route_call true queues agents_of intent language).0
unfolding route_call
route_call-IsTop queues agents_of intent language rows h =
    let matched : Text = match_queue queues intent in
    let name : Text = if is_empty matched then lit "Support" else matched in
    let best = first_of (score_agents intent language rows) in
    elim (Option-cases (agents_of name)) [
      | inl e ↦ ground (arith, h, e)
      | inr (found, e) ↦
          let same_rows : found ≡ rows = ground (arith, h, e) in
          let (d, p) = score_agents-Descending intent language rows in
          rw (e, same_rows) (first_of-IsTop (score_agents intent language rows) _ d p)
    ]
