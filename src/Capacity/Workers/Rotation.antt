-- ===== src/Capacity/Workers/Rotation.antt =====
-- The worker that Next of gateway/scale.go hands out.
use native.Mathlib.Nat.{mod-eq_of_lt, add-mod_right, mod-lt}
use voiceagent.Base.{
  ℕ, zero, suc, ◌+◌, ◌-◌, ◌%◌, ◌≤◌, ◌<◌, ◌≡◌, refl, sym, ap, subst, ◌∙◌, inl, inr, true, false,
  List, Option, none, some, ◌==◌, arith, Text, get_elem?, length, Bool-cases, if_elim, ==_iff, ltb,
  ltb→lt,
}
use voiceagent.Capacity.Workers.{Worker, WorkerPool, is_healthy, find_healthy, url_at, next}

-- The search finds the healthy worker that comes first after the start, or there is none ahead.
abbrev Found : List Worker → ℕ → ℕ → ℕ → Option ℕ → Type 0
Found ws start i left none =
    (k : ℕ) → i ≤ k → k < i + left → is_healthy (get_elem? ws ((start + k) % length ws)) ≡ false
Found ws start i left (some idx) =
    (k : ℕ) × (i ≤ k)
    × (k < i + left)
    × (idx ≡ (start + k) % length ws)
    × (is_healthy (get_elem? ws idx) ≡ true)
    × ((j : ℕ) → i ≤ j → j < k → is_healthy (get_elem? ws ((start + j) % length ws)) ≡ false)

-- The step at i finds nothing.
later_unhealthy :
    (ws : List Worker) (start i m : ℕ)
    → is_healthy (get_elem? ws ((start + i) % length ws)) ≡ false
    → ((k : ℕ) → i + 1 ≤ k → k < m → is_healthy (get_elem? ws ((start + k) % length ws)) ≡ false)
    → (k : ℕ) → i ≤ k
    → k < m
    → is_healthy (get_elem? ws ((start + k) % length ws)) ≡ false
later_unhealthy ws start i m h rest k lo hi = elim (Bool-cases (k == i)) [
  | inl e ↦
      subst (λ j. is_healthy (get_elem? ws ((start + j) % length ws)) ≡ false)
        (sym ((==_iff k i).0 e)) h
  | inr e ↦ rest k (ground (arith, lo, e)) hi
]

Found-later :
    (ws : List Worker) (start i left : ℕ) (o : Option ℕ)
    → is_healthy (get_elem? ws ((start + i) % length ws)) ≡ false
    → Found ws start (i + 1) left o
    → Found ws start i (suc left) o
Found-later ws start i left none h rest = λ k lo hi.
    later_unhealthy ws start i (i + suc left) h (λ j l m. rest j l (omega (arith, m))) k lo hi
Found-later ws start i left (some idx) h (k, lo, hi, e, ok, before) =
    (k, omega (arith, lo), omega (arith, hi), e, ok, later_unhealthy ws start i k h before)

find_healthy-Found :
    (ws : List Worker) (start i left : ℕ) → Found ws start i left (find_healthy ws start i left)
unfolding find_healthy
find_healthy-Found ws start i zero = λ k lo hi. ground (arith, lo, hi)
find_healthy-Found ws start i (suc left) =
    if_elim (Found ws start i (suc left)) _ _ (is_healthy (get_elem? ws ((start + i) % length ws)))
      (λ h. (i, omega arith, omega arith, refl, h, λ j lo hi. ground (arith, lo, hi)))
      (λ h.
        Found-later ws start i left (find_healthy ws start (i + 1) left) h
          (find_healthy-Found ws start (i + 1) left))

-- Every index is met on the way round from the start.
way_round : (n start j : ℕ) → start < n → j < n → (k : ℕ) × (k < n) × ((start + k) % n ≡ j)
way_round n start j s h = elim (Bool-cases (ltb j start)) [
  | inl before ↦
      let lt = ltb→lt j start before in
      (
        j + n - start,
        omega (arith, lt, s),
        ap (λ x. x % n) (the_sum lt) ∙ add-mod_right j n ∙ mod-eq_of_lt h,
      )
  | inr after ↦
      let k = j - start in (k, omega (arith, h), ap (λ x. x % n) (ahead after) ∙ mod-eq_of_lt h)
]
  where
    the_sum : j < start → start + (j + n - start) ≡ j + n
    the_sum lt = omega (arith, lt, s)

    ahead : ltb j start ≡ false → start + (j - start) ≡ j
    ahead e = ground (arith, e)

-- Whom the pool hands out: a healthy worker, and no healthy one stands nearer after the index.
abbrev pub HandsOut : List Worker → ℕ → Option Text → Type 0
HandsOut ws index answer =
    (k : ℕ) × (w : Worker) × (k < length ws)
    × (get_elem? ws ((index % length ws + k) % length ws) ≡ some w)
    × (w.healthy ≡ true)
    × (answer ≡ some w.url)
    × ((j : ℕ) → j < k → is_healthy (get_elem? ws ((index % length ws + j) % length ws)) ≡ false)

healthy_worker :
    (o : Option Worker) → is_healthy o ≡ true → (w : Worker) × (o ≡ some w) × (w.healthy ≡ true)
healthy_worker none e = ground (arith, e)
healthy_worker (some w) e = (w, refl, e)

url-at_some :
    (ws : List Worker) (i : ℕ) (w : Worker) → get_elem? ws i ≡ some w → url_at ws i ≡ some w.url
url-at_some ws i w e = ground (arith, e)

Found-HandsOut :
    (ws : List Worker) (index j : ℕ) (other : Option Text)
    → j < length ws
    → is_healthy (get_elem? ws j) ≡ true
    → (o : Option ℕ) → Found ws (index % length ws) 0 (length ws) o
    → HandsOut ws index (elim o [ some idx ↦ url_at ws idx | none ↦ other ])
Found-HandsOut ws index j other h ok none unhealthy =
    let (k, below, at) =
      way_round (length ws) (index % length ws) j (mod-lt index (omega (arith, h))) h in
    let bad = unhealthy k (omega arith) (omega (arith, below)) in
    ground (arith, sym ok ∙ ap (λ x. is_healthy (get_elem? ws x)) (sym at) ∙ bad)
Found-HandsOut ws index j other h ok (some idx) (k, lo, hi, e, healthy, before) =
    let (w, at, up) = healthy_worker (get_elem? ws idx) healthy in
    (
      k,
      w,
      omega (arith, hi),
      ap (get_elem? ws) (sym e) ∙ at,
      up,
      url-at_some ws idx w at,
      λ i b. before i (omega arith) b,
    )

-- While some worker is healthy, Next moves the index by one and answers the healthy worker that comes
-- first from there, going round the list.
pub next-HandsOut :
    (rand_intn : ℕ → ℕ) (wp : WorkerPool) (j : ℕ)
    → j < length wp.workers
    → is_healthy (get_elem? wp.workers j) ≡ true
    → ((next rand_intn wp).0 ≡ record wp { index = wp.index + 1 })
      × HandsOut wp.workers (wp.index + 1) (next rand_intn wp).1
unfolding next
next-HandsOut rand_intn wp j h ok =
    if_elim
      (λ (r : WorkerPool × Option Text).
        (r.0 ≡ record wp { index = wp.index + 1 }) × HandsOut wp.workers (wp.index + 1) r.1)
      _ _ (length wp.workers == 0) (λ e. ground (arith, e, h))
      (λ _. (
        refl,
        Found-HandsOut wp.workers (wp.index + 1) j _ h ok
            (find_healthy wp.workers ((wp.index + 1) % length wp.workers) 0 (length wp.workers))
            (find_healthy-Found wp.workers ((wp.index + 1) % length wp.workers) 0
              (length wp.workers)),
      ))
