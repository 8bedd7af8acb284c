-- ===== src/Calls/Queue/Position.antt =====
-- Where a new caller stands, by gateway/queue.go and the announcements of
-- gateway/queue_announcements.go.
use voiceagent.Base.{
  ℕ, ◌+◌, ◌*◌, ◌<◌, ◌≡◌, refl, ◌∙◌, inl, inr, List, [], ◌∷◌, ◌++◌, Option, none, some, arith,
  Bool-cases, Text, same, same_refl, same_iff, length, get, get-put,
}
use voiceagent.Calls.Queue.{
  QueueEntry, QueueInfo, QueueManager, queue_or_new, add_caller, place_from, get_queue_position,
  position_of, has_call_id,
}
use voiceagent.Calls.Queue.Taking.{NoneOf}

place_from-last :
    (n : ℕ) (call_id : Text) (es : List QueueEntry) (e : QueueEntry)
    → NoneOf (has_call_id call_id) es
    → e.call_id ≡ call_id
    → place_from n call_id (es ++ e ∷ []) ≡ n + length es
unfolding place_from
place_from-last n call_id [] e h same_call = rw (same_call, same_refl call_id) (omega arith)
place_from-last n call_id (x ∷ xs) e (h, hs) same_call =
    rw h (place_from-last (n + 1) call_id xs e hs same_call ∙ omega arith)

-- A caller who is there keeps his place when another joins.
place_from-append :
    (n : ℕ) (call_id : Text) (es : List QueueEntry) (e : QueueEntry)
    → 0 < n
    → 0 < place_from n call_id es
    → place_from n call_id (es ++ e ∷ []) ≡ place_from n call_id es
unfolding place_from
place_from-append n call_id [] e pos h = absurd (omega arith)
place_from-append n call_id (x ∷ xs) e pos h = elim (Bool-cases (same x.call_id call_id)) [
  | inl s ↦ rw s
  | inr s ↦ rw s (place_from-append (n + 1) call_id xs e (omega arith) (rw s at h))
]

get-add_caller :
    (now : ℕ) (name : Text) (entry : QueueEntry) (qm : QueueManager)
    → get name (add_caller now name entry qm)
      ≡ some (record (queue_or_new name qm) {
        callers =
            (queue_or_new name qm).callers
            ++ (record entry { enter_time = now; queue_name = name }) ∷ [];
      })
unfolding add_caller
get-add_caller now name entry qm = rw (get-put name name, same_refl name)

position_in :
    (call_id : Text) (q : QueueInfo) (k : ℕ)
    → place_from 1 call_id q.callers ≡ k + 1
    → position_of call_id (some q) ≡ (k + 1, (k + 1) * 3)
unfolding position_of
position_in call_id q k h = rw h (ground arith)

-- A caller's position is that in a longer queue.
position_longer :
    (call_id : Text) (q q' : QueueInfo) (e : QueueEntry)
    → q'.callers ≡ q.callers ++ e ∷ []
    → 0 < (position_of call_id (some q)).0
    → position_of call_id (some q') ≡ position_of call_id (some q)
unfolding position_of
position_longer call_id q q' e same_callers h =
    rw (same_callers, place_from-append 1 call_id q.callers e (omega arith) (ground arith))

queue_there :
    (name : Text) (qm : QueueManager) (q : QueueInfo)
    → get name qm ≡ some q
    → queue_or_new name qm ≡ q
unfolding queue_or_new
queue_there name qm q e = rw (e, queue_or_new)

joined_behind :
    (name call_id : Text) (qm : QueueManager) (e : QueueEntry) (o : Option QueueInfo)
    → get name qm ≡ o
    → 0 < (position_of call_id o).0
    → position_of call_id (
        some (record (queue_or_new name qm) { callers = (queue_or_new name qm).callers ++ e ∷ [] }))
      ≡ position_of call_id o
joined_behind name call_id qm e none there h = unfold position_of in absurd (omega arith)
joined_behind name call_id qm e (some q) there h =
    rw (queue_there name qm q there) (position_longer call_id q _ e refl h)

-- A call that does not wait in the queue yet is told the place behind all who do, and three minutes
-- for each of them and itself; a queue that is not there yet is made.
pub get_queue_position-add_caller :
    (now : ℕ) (name : Text) (entry : QueueEntry) (qm : QueueManager)
    → NoneOf (has_call_id entry.call_id) (queue_or_new name qm).callers
    → let place = length (queue_or_new name qm).callers + 1 in
      get_queue_position entry.call_id name (add_caller now name entry qm) ≡ (place, place * 3)
unfolding get_queue_position
get_queue_position-add_caller now name entry qm h = rw (get-add_caller now name entry qm) (
    position_in entry.call_id _ (length (queue_or_new name qm).callers)
      (place_from-last 1 entry.call_id (queue_or_new name qm).callers _ h refl ∙ omega arith))

-- Who waits already keeps his place, in this queue and in every other one.
pub get_queue_position-add_caller_others :
    (now : ℕ) (name other call_id : Text) (entry : QueueEntry) (qm : QueueManager)
    → 0 < (get_queue_position call_id other qm).0
    → get_queue_position call_id other (add_caller now name entry qm)
      ≡ get_queue_position call_id other qm
unfolding get_queue_position
get_queue_position-add_caller_others now name other call_id entry qm h =
    elim (Bool-cases (same name other)) [
      | inr differ ↦ unfold add_caller in rw (get-put name other, differ)
      | inl alike ↦
          let e = (same_iff name other).0 alike in
          rw (← e, get-add_caller now name entry qm)
            (joined_behind name call_id qm _ (get name qm) refl (rw (← e) at h))
    ]
