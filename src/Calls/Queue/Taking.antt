-- ===== src/Calls/Queue/Taking.antt =====
-- What a removal from the queues of gateway/queue.go takes, and what it leaves.
use voiceagent.Base.{
  ℕ, suc, ◌≤◌, ◌≡◌, refl, sym, ap, ◌∙◌, subst, ◌-◌, ◌⊎◌, inl, inr, Bool, true, false, List, [], ◌∷◌,
  ◌++◌, append_assoc, none, some, arith, if◌then◌else◌, Bool-cases, All, Text,
}
use voiceagent.Calls.Queue.{
  QueueEntry, QueueManager, take_entry, take_caller, all_callers, remove_caller, has_id,
  has_call_id, remove_caller_by_call_id,
}

-- `c` is the first entry of `es` that passes the test, and `cs` is what stands before and after it.
abbrev pub Taken : (QueueEntry → Bool) → List QueueEntry → QueueEntry → List QueueEntry → Type 0
Taken p es c cs =
    (before : List QueueEntry) × (after : List QueueEntry) × (es ≡ before ++ (c ∷ after))
    × (cs ≡ before ++ after)
    × (p c ≡ true)
    × All (λ e. p e ≡ false) before

-- No entry passes the test.
abbrev pub NoneOf : (QueueEntry → Bool) → List QueueEntry → Type 0
NoneOf p es = All (λ e. p e ≡ false) es

NoneOf-append :
    (p : QueueEntry → Bool) (xs ys : List QueueEntry)
    → NoneOf p xs
    → NoneOf p ys
    → NoneOf p (xs ++ ys)
NoneOf-append p [] ys a b = b
NoneOf-append p (x ∷ xs) ys (h, a) b = (h, NoneOf-append p xs ys a b)

take_entry_cases :
    (p : QueueEntry → Bool) (es : List QueueEntry)
    → ((take_entry p es ≡ none) × NoneOf p es)
      ⊎ ((c : QueueEntry) × (cs : List QueueEntry) × (take_entry p es ≡ some (c, cs))
          × Taken p es c cs)
unfolding take_entry
take_entry_cases p [] = inl (refl, tt)
take_entry_cases p (e ∷ es) = elim (Bool-cases (p e)) [
  | inl h ↦ inr (e, es, rw h, ([], es, refl, refl, h, tt))
  | inr h ↦ elim (take_entry_cases p es) [
    | inl (t, n) ↦ inl (rw (h, t), (h, n))
    | inr (c, cs, t, (before, after, e1, e2, pc, nb)) ↦
        inr (c, e ∷ cs, rw (h, t), (e ∷ before, after, ap (◌∷◌ e) e1, ap (◌∷◌ e) e2, pc, (h, nb)))
  ]
]

-- A removal takes the first entry that passes the test and leaves all others in their order; it
-- finds nothing only where no entry of any queue passes.
pub take_caller_cases :
    (p : QueueEntry → Bool) (qm : QueueManager)
    → ((take_caller p qm ≡ none) × NoneOf p (all_callers qm))
      ⊎ ((c : QueueEntry) × (qm' : QueueManager) × (take_caller p qm ≡ some (c, qm'))
          × Taken p (all_callers qm) c (all_callers qm'))
unfolding take_caller all_callers
take_caller_cases p [] = inl (refl, tt)
take_caller_cases p ((k, q) ∷ qm) = elim (take_entry_cases p q.callers) [
  | inr (c, cs, t, (before, after, e1, e2, pc, nb)) ↦ inr (
    c,
    (k, record q { callers = cs }) ∷ qm,
    rw (t, take_caller),
    (
      before,
      after ++ all_callers qm,
      rw e1 (append_assoc before (c ∷ after) (all_callers qm)),
      rw e2 (append_assoc before after (all_callers qm)),
      pc,
      nb,
    ),
  )
  | inl (t, n) ↦ elim (take_caller_cases p qm) [
    | inl (t', n') ↦ inl (rw (t, t', take_caller), NoneOf-append p q.callers (all_callers qm) n n')
    | inr (c, qm', t', (before, after, e1, e2, pc, nb)) ↦ inr (
      c,
      (k, q) ∷ qm',
      rw (t, t', take_caller),
      (
        q.callers ++ before,
        after,
        ap (◌++◌ q.callers) e1 ∙ sym (append_assoc q.callers before (c ∷ after)),
        ap (◌++◌ q.callers) e2 ∙ sym (append_assoc q.callers before after),
        pc,
        NoneOf-append p q.callers before n nb,
      ),
    )
  ]
]

abbrev pub count_if : (QueueEntry → Bool) → List QueueEntry → ℕ
count_if p [] = 0
count_if p (e ∷ es) = let rest = count_if p es in if p e then suc rest else rest

count_if-NoneOf :
    (p : QueueEntry → Bool) (xs ys : List QueueEntry)
    → NoneOf p xs
    → count_if p (xs ++ ys) ≡ count_if p ys
count_if-NoneOf p [] ys n = refl
count_if-NoneOf p (x ∷ xs) ys (h, n) = rw h (count_if-NoneOf p xs ys n)

pub count_if-zero : (p : QueueEntry → Bool) (xs : List QueueEntry) → NoneOf p xs → count_if p xs ≡ 0
count_if-zero p [] n = refl
count_if-zero p (x ∷ xs) (h, n) = rw h (count_if-zero p xs n)

-- A removal lowers the number of entries that pass the test by one.
count_if-Taken :
    (p : QueueEntry → Bool) (es : List QueueEntry) (c : QueueEntry) (cs : List QueueEntry)
    → Taken p es c cs
    → count_if p es ≡ suc (count_if p cs)
count_if-Taken p es c cs (before, after, e1, e2, pc, nb) =
    rw (e1, e2, count_if-NoneOf p before (c ∷ after) nb, count_if-NoneOf p before after nb, pc)

take_caller-counted :
    (p : QueueEntry → Bool) (qm qm' : QueueManager) (c : QueueEntry)
    → take_caller p qm ≡ some (c, qm')
    → count_if p (all_callers qm) ≡ suc (count_if p (all_callers qm'))
take_caller-counted p qm qm' c h = elim (take_caller_cases p qm) [
  | inl (t, n) ↦ absurd (cc)
  | inr (d, qd, t, taken) ↦
      let same_rest : qd ≡ qm' = cc in
      subst (λ q. count_if p (all_callers qm) ≡ suc (count_if p (all_callers q))) same_rest
        (count_if-Taken p (all_callers qm) d (all_callers qd) taken)
]

take_caller-none :
    (p : QueueEntry → Bool) (qm : QueueManager)
    → count_if p (all_callers qm) ≡ 0
    → take_caller p qm ≡ none
take_caller-none p qm h = elim (take_caller_cases p qm) [
  | inl (t, n) ↦ t
  | inr (d, qd, t, taken) ↦
      absurd (omega (arith, count_if-Taken p (all_callers qm) d (all_callers qd) taken))
]

-- An entry whose id no other entry has can be taken once: whoever asks for it again, by its id,
-- finds nothing.
pub remove_caller_twice :
    (entry_id : Text) (qm qm' : QueueManager) (c : QueueEntry)
    → count_if (has_id entry_id) (all_callers qm) ≤ 1
    → remove_caller entry_id qm ≡ some (c, qm')
    → remove_caller entry_id qm' ≡ none
unfolding remove_caller
remove_caller_twice entry_id qm qm' c unique h =
    take_caller-none (has_id entry_id) qm'
      (omega (arith, take_caller-counted (has_id entry_id) qm qm' c h))

-- RemoveCallerByCallID lowers the number of entries with the call's id by one, if there are any; so
-- a call that waited once waits nowhere after it.
pub remove_caller_by_call_id-count :
    (call_id : Text) (qm : QueueManager)
    → count_if (has_call_id call_id) (all_callers (remove_caller_by_call_id call_id qm))
      ≡ count_if (has_call_id call_id) (all_callers qm) - 1
unfolding remove_caller_by_call_id
remove_caller_by_call_id-count call_id qm = elim (take_caller_cases (has_call_id call_id) qm) [
  | inl (t, n) ↦
      rw (t, remove_caller_by_call_id)
        (omega (arith, count_if-zero (has_call_id call_id) (all_callers qm) n))
  | inr (c, qm', t, taken) ↦
      rw (t, remove_caller_by_call_id)
        (omega
          (arith, count_if-Taken (has_call_id call_id) (all_callers qm) c (all_callers qm') taken))
]
