-- ===== src/Sip/Hangup/Cleared.antt =====
-- What a BYE leaves of a call in gateway/sipserver.go, and of other calls.
use voiceagent.Base.{
  ℕ, ◌-◌, ◌≡◌, ap, ◌∙◌, true, List, [], ◌∷◌, ◌++◌, append_assoc, none, some, if◌then◌else◌, arith,
  Text, same, same_iff, same_refl, has_prefix, has_prefix-append, get, get-put, get-del, Bool-cases,
  inl, inr,
}
use voiceagent.Calls.Queue.{all_callers, has_call_id, remove_caller_by_call_id}
use voiceagent.Calls.Queue.Taking.{count_if, remove_caller_by_call_id-count}
use voiceagent.Calls.Announcer.{stop_announcements}
use voiceagent.Sip.Hangup.{
  LiveCalls, session_key, add_session, end_sessions, bridge_id, close_bridge, handle_bye,
}

get-end_sessions :
    (call_id k : Text) (m : List (Text × ℕ))
    → get k (end_sessions call_id m).0 ≡ (if has_prefix k call_id then none else get k m)
unfolding end_sessions get
get-end_sessions call_id k [] = ground arith
get-end_sessions call_id k ((j, port) ∷ m) =
    let same_key : same j k ≡ true → j ≡ k = (same_iff j k).0 in
    elim (Bool-cases (same j k)) [
      | inl e ↦ rw (same_key e) (ground (arith, same_refl k, get-end_sessions call_id k m))
      | inr e ↦ ground (arith, e, get-end_sessions call_id k m)
    ]

module _ (now : ℕ) (call_id : Text) (s : LiveCalls) where
  abbrev ended : LiveCalls
  ended = handle_bye now call_id s

  bye-sessions : ended.sessions ≡ (end_sessions call_id s.sessions).0
  unfolding handle_bye close_bridge
  bye-sessions = ground arith

  bye-bridges : get (bridge_id call_id) ended.bridges ≡ none
  unfolding handle_bye close_bridge
  bye-bridges = ground (
    arith,
    get-del (bridge_id call_id) (bridge_id call_id) s.bridges,
    same_refl (bridge_id call_id),
  )

  bye-ringing : get call_id ended.ringing ≡ none
  unfolding handle_bye close_bridge
  bye-ringing = ground (arith, get-del call_id call_id s.ringing, same_refl call_id)

  bye-announcer : get call_id ended.announcer.active ≡ none
  unfolding handle_bye close_bridge stop_announcements
  bye-announcer = ground (arith, get-del call_id call_id s.announcer.active, same_refl call_id)

  bye-queues : ended.queues ≡ remove_caller_by_call_id call_id s.queues
  unfolding handle_bye close_bridge
  bye-queues = ground arith

-- After a BYE for a call, none of the sessions whose key begins with its id is left and every other one
-- is, the call has no browser session, no ring and no announcements, and waits in the queues one time
-- less, if it waited.
pub handle_bye_clears :
    (now : ℕ) (call_id k : Text) (s : LiveCalls)
    → let after : LiveCalls = handle_bye now call_id s in
      (get k after.sessions ≡ (if has_prefix k call_id then none else get k s.sessions))
      × ((get (bridge_id call_id) after.bridges ≡ none)
          × ((get call_id after.ringing ≡ none)
              × ((get call_id after.announcer.active ≡ none)
                  × (count_if (has_call_id call_id) (all_callers after.queues)
                      ≡ count_if (has_call_id call_id) (all_callers s.queues) - 1))))
handle_bye_clears now call_id k s = (
  ap (get k) (bye-sessions now call_id s) ∙ get-end_sessions call_id k s.sessions,
  (
    bye-bridges now call_id s,
    (
      bye-ringing now call_id s,
      (
        bye-announcer now call_id s,
        ap (λ q. count_if (has_call_id call_id) (all_callers q)) (bye-queues now call_id s)
            ∙ remove_caller_by_call_id-count call_id s.queues,
      ),
    ),
  ),
)

-- A BYE for a call ends the sessions of every call whose id begins with that call's id.
pub handle_bye_ends_others :
    (now : ℕ) (call_id more role : Text) (port : ℕ) (s : LiveCalls)
    → let there : LiveCalls = add_session (call_id ++ more) role port s in
      (get (session_key (call_id ++ more) role) there.sessions ≡ some port)
      × (get (session_key (call_id ++ more) role) (handle_bye now call_id there).sessions ≡ none)
unfolding add_session
handle_bye_ends_others now call_id more role port s =
    let key : Text = session_key (call_id ++ more) role in
    let there : LiveCalls = add_session (call_id ++ more) role port s in
    let shape : key ≡ call_id ++ (more ++ 95 ∷ role) = append_assoc call_id more (95 ∷ role) in
    let begins : has_prefix key call_id ≡ true =
      rw (shape) (has_prefix-append call_id (more ++ 95 ∷ role)) in
    (
      ground (arith, get-put key key port s.sessions, same_refl key),
      ground (arith, (handle_bye_clears now call_id key there).0, begins),
    )
