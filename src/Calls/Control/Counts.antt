-- ===== src/Calls/Control/Counts.antt =====
-- How many entries of a call wait once the handlers of gateway/callcontrol.go have put one into a queue.
use voiceagent.Base.{
  ℕ, ◌+◌, ◌-◌, ◌≡◌, ap, inl, inr, Bool, false, List, [], ◌∷◌, ◌++◌, Option, none, some,
  if◌then◌else◌, arith, Text, same, same_refl, is_empty, get, put, has_prefix-append, Option-cases,
}
use voiceagent.Calls.Queue.{
  QueueEntry, QueueInfo, QueueManager, add_caller, queue_or_new, all_callers, has_call_id,
  remove_caller_by_call_id,
}
use voiceagent.Calls.Queue.Taking.{count_if, remove_caller_by_call_id-count}
use voiceagent.Calls.Control.{bridge, extract_siprec_call_id, requeue}

-- A call id with the bridge's prefix before it is read back.
pub extract_siprec_call_id-bridge :
    (id : Text) → is_empty id ≡ false → extract_siprec_call_id (bridge ++ id) ≡ id
unfolding extract_siprec_call_id
extract_siprec_call_id-bridge [] e = ground (arith, e)
extract_siprec_call_id-bridge (c ∷ id) e = ground (arith, has_prefix-append bridge (c ∷ id))

count_if-append :
    (p : QueueEntry → Bool) (xs ys : List QueueEntry)
    → count_if p (xs ++ ys) ≡ count_if p xs + count_if p ys
count_if-append p [] ys = omega arith
count_if-append p (x ∷ xs) ys = ground (arith, count_if-append p xs ys)

abbrev callers_of : Option QueueInfo → List QueueEntry
callers_of none = []
callers_of (some q) = q.callers

-- Writing a queue exchanges its callers.
put-counted :
    (p : QueueEntry → Bool) (name : Text) (q' : QueueInfo) (qm : QueueManager)
    → count_if p (all_callers (put name q' qm)) + count_if p (callers_of (get name qm))
      ≡ count_if p (all_callers qm) + count_if p q'.callers
unfolding put all_callers get
put-counted p name q' [] = ground (arith, count_if-append p q'.callers [])
put-counted p name q' ((k, q) ∷ qm) = ground (
  arith,
  put-counted p name q' qm,
  count_if-append p q.callers (all_callers qm),
  count_if-append p q'.callers (all_callers qm),
  count_if-append p q.callers (all_callers (put name q' qm)),
)

queue_or_new-callers :
    (name : Text) (qm : QueueManager) → (queue_or_new name qm).callers ≡ callers_of (get name qm)
unfolding queue_or_new
queue_or_new-callers name qm = elim (Option-cases (get name qm)) [
  | inl e ↦ ground (arith, e)
  | inr (q, e) ↦ ground (arith, e)
]

-- Adding a caller adds one entry, with its call's id.
pub add_caller-count :
    (call : Text) (now : ℕ) (name : Text) (e : QueueEntry) (qm : QueueManager)
    → count_if (has_call_id call) (all_callers (add_caller now name e qm))
      ≡ count_if (has_call_id call) (all_callers qm) + (if same e.call_id call then 1 else 0)
unfolding add_caller
add_caller-count call now name e qm =
    let q = queue_or_new name qm in
    let e' = record e { enter_time = now; queue_name = name } in
    omega (
      arith,
      put-counted (has_call_id call) name (record q { callers = q.callers ++ e' ∷ [] }) qm,
      count_if-append (has_call_id call) q.callers (e' ∷ []),
      ap (count_if (has_call_id call)) (queue_or_new-callers name qm),
    )

pub requeue-count :
    (now : ℕ) (name : Text) (e : QueueEntry) (qm : QueueManager)
    → count_if (has_call_id e.call_id) (all_callers (requeue now name e qm))
      ≡ (count_if (has_call_id e.call_id) (all_callers qm) - 1) + 1
unfolding requeue
requeue-count now name e qm = ground (
  arith,
  add_caller-count e.call_id now name e (remove_caller_by_call_id e.call_id qm),
  remove_caller_by_call_id-count e.call_id qm,
  same_refl e.call_id,
)
