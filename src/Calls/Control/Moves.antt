-- ===== src/Calls/Control/Moves.antt =====
-- Where the handlers of gateway/callcontrol.go and gateway/queue.go leave a call.
use voiceagent.Base.{
  ◌+◌, ◌-◌, ◌≡◌, ◌≢◌, refl, sym, ap, subst, ◌⊎◌, inl, inr, Bool, true, false, ◌&&◌, List, [], ◌∷◌,
  ◌++◌, Option, none, some, if◌then◌else◌, if_elim, arith, Text, lit, same_refl, is_empty, get, del,
  get-del, Option-cases,
}
use voiceagent.Calls.Queue.{
  QueueEntry, QueueInfo, QueueManager, all_callers, has_id, has_call_id, remove_caller, take_caller,
}
use voiceagent.Calls.Queue.Taking.{count_if, Taken, NoneOf, take_caller_cases}
use voiceagent.Calls.Distributor.{Ring, RingingCalls}
use voiceagent.Calls.Announcer.{QueueAnnouncer, stop_announcements}
use voiceagent.Calls.Control.{
  Gateway, Status, extract_siprec_call_id, TransferRequest, PickRequest, take_for_pick, picked,
  handle_pick_call,
}

-- What a request asks for, by the newer names of the target or by the older ones.
abbrev pub Asks : TransferRequest → Text → Text → Type 0
Asks req kind value =
    (((is_empty req.target_type ≡ false) ⊎ (is_empty req.target ≡ true))
      × (kind ≡ req.target_type)
      × (value ≡ req.target_value))
    ⊎ ((is_empty req.target_type ≡ true)
        × (is_empty req.target ≡ false)
        × (((is_empty req.department ≡ true) × (kind ≡ lit "agent") × (value ≡ req.target))
            ⊎ ((is_empty req.department ≡ false)
                × (kind ≡ lit "queue")
                × (value ≡ req.department))))

-- The browser session is closed, of the entries with the call's id one is taken away, if there is one,
-- and one added, and the last entry of the queue is one of the call.
abbrev pub Moved : Text → Text → Gateway → Gateway → Type 0
Moved call_id queue gw gw' =
    (get call_id gw'.webrtc ≡ none)
    × (count_if (has_call_id (extract_siprec_call_id call_id)) (all_callers gw'.queues)
        ≡ (count_if (has_call_id (extract_siprec_call_id call_id)) (all_callers gw.queues) - 1) + 1)
    × ((q : QueueInfo) × (before : List QueueEntry) × (e : QueueEntry) × (get queue gw'.queues
          ≡ some q)
        × (q.callers ≡ before ++ e ∷ [])
        × (e.call_id ≡ extract_siprec_call_id call_id))

-- What a transfer does, by what the request asks for.
abbrev pub Transferred : TransferRequest → Gateway → Gateway × Status → Type 0
Transferred req gw (gw', status) =
    (kind : Text) × (value : Text) × Asks req kind value
    × ((((is_empty req.call_id ≡ true) ⊎ ((kind ≢ lit "queue") × (kind ≢ lit "agent")))
          × (gw' ≡ gw)
          × (status ≡ 400))
        ⊎ (((is_empty req.call_id ≡ false)
              × (kind ≡ lit "queue")
              × (status ≡ 200)
              × Moved req.call_id value gw gw'
              × (gw'.rings ≡ gw.rings))
            ⊎ ((is_empty req.call_id ≡ false)
                × (kind ≡ lit "agent")
                × (status ≡ 200)
                × Moved req.call_id (lit "Transfer") gw gw'
                × ((r : Ring) × (gw'.rings ≡ gw.rings ++ r ∷ [])
                    × (r.agent_id ≡ value)
                    × (r.call_id ≡ extract_siprec_call_id req.call_id)))))

stopped_gone :
    (call : Text) (qa : QueueAnnouncer) → get call (stop_announcements call qa).active ≡ none
unfolding stop_announcements
stopped_gone call qa = elim (Option-cases (get call qa.active)) [
  | inl e ↦ ground (arith, e)
  | inr (n, e) ↦ ground (arith, e, get-del call call qa.active, same_refl call)
]

-- The entry that a pick asks for.
abbrev pub asked_for : PickRequest → QueueEntry → Bool
asked_for req =
    if is_empty req.queue_entry_id then has_call_id req.call_id else has_id req.queue_entry_id

-- What a pick does, by what it names and what waits.
abbrev pub Picked : PickRequest → Gateway → Gateway × Status → Type 0
Picked req gw (gw', status) =
    ((gw' ≡ gw)
      × (status ≡ 400)
      × (is_empty req.queue_entry_id ≡ true)
      × (is_empty req.call_id ≡ true))
    ⊎ (((is_empty req.queue_entry_id && is_empty req.call_id) ≡ false)
        × (((gw' ≡ gw) × (status ≡ 404) × NoneOf (asked_for req) (all_callers gw.queues))
            ⊎ ((status ≡ 200)
                × ((c : QueueEntry) × Taken (asked_for req) (all_callers gw.queues) c
                      (all_callers gw'.queues)
                    × (get c.call_id gw'.announcer.active ≡ none)
                    × (is_empty req.agent_id ≡ false → get c.call_id gw'.ringing ≡ none)))))

take_for_pick-asked_for :
    (req : PickRequest) (qm : QueueManager) → take_for_pick req qm ≡ take_caller (asked_for req) qm
unfolding take_for_pick remove_caller
take_for_pick-asked_for req qm =
    if_elim (λ (p : QueueEntry → Bool). picked_by (is_empty req.queue_entry_id) ≡ take_caller p qm)
      _ _ (is_empty req.queue_entry_id) (λ e. ap picked_by e) (λ e. ap picked_by e)
  where
    picked_by : Bool → Option (QueueEntry × QueueManager)
    picked_by b =
        if b
        then take_caller (has_call_id req.call_id) qm
        else take_caller (has_id req.queue_entry_id) qm

picked_gone :
    (req : PickRequest) (c : QueueEntry) (ringing : RingingCalls)
    → is_empty req.agent_id ≡ false
    → get c.call_id (if is_empty req.agent_id then ringing else del c.call_id ringing) ≡ none
picked_gone req c ringing named =
    ground (arith, named, get-del c.call_id c.call_id ringing, same_refl c.call_id)

-- A pick that names neither an entry nor a call is answered with 400, and one for which no entry waits
-- with 404; neither changes anything. Every other is answered with 200 and takes the first waiting entry
-- with the id asked for, or with the call's id when it names no entry; every other entry stays in its
-- place, the call's announcements are stopped, and when it names an agent the call no longer rings.
pub handle_pick_call-Picked :
    (req : PickRequest) (gw : Gateway) → Picked req gw (handle_pick_call req gw)
unfolding handle_pick_call picked
handle_pick_call-Picked req gw =
    if_elim (Picked req gw) _ _ (is_empty req.queue_entry_id && is_empty req.call_id)
      (λ e. inl (refl, refl, ground (arith, e), ground (arith, e)))
      (λ named.
        subst answers (sym (take_for_pick-asked_for req gw.queues))
          (elim (take_caller_cases (asked_for req) gw.queues) [
            | inl (e, nobody) ↦ subst answers (sym e) (inr (named, inl (refl, refl, nobody)))
            | inr (c, qm, e, taken) ↦ subst answers (sym e) (
                inr (
                  named,
                  inr (
                    refl,
                    (c, taken, stopped_gone c.call_id gw.announcer, picked_gone req c gw.ringing),
                  ),
                ))
          ]))
  where
    answers : Option (QueueEntry × QueueManager) → Type 0
    answers o =
        Picked req gw (elim o [ none ↦ (gw, 404) | some (c, qm) ↦ (picked req c qm gw, 200) ])
