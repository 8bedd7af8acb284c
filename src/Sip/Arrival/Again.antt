-- ===== src/Sip/Arrival/Again.antt =====
-- The second INVITE of a call at gateway/sipserver.go, such as one that refreshes its session.
use voiceagent.Base.{
  ℕ, ◌+◌, ◌≡◌, ap, ◌∙◌, subst, true, ◌∷◌, Option, some, arith, lit, same, get, inl, inr,
}
use voiceagent.Inbound.SipAuth.{SipTrunkEntry}
use voiceagent.Sip.Arrival.{
  Invite, Surroundings, Server, Arrived, responded, unanswered, crashed, accept_call,
}
use voiceagent.Sip.Arrival.Placed.{
  waiting, role_in, key_in, next_port, Registered, Placed, accept_call-Placed,
}

-- What an answered call of a caller has.
abbrev Answered : Surroundings → Invite → Server → Server → Type 0
Answered env req s t =
    Registered env req s t × (waiting req.call_id t.live ≡ waiting req.call_id s.live + 1)

abbrev code_of : Arrived → ℕ
code_of (responded n) = n
code_of unanswered = 0
code_of crashed = 0

once_more :
    (env : Surroundings) (req : Invite) (s t : Server)
    → same (role_in env req) (lit "caller") ≡ true
    → Placed env req s (t, responded 200)
    → Answered env req s t
once_more env req s t e (inl (inl h, rest)) = absurd (omega (arith, ap code_of h))
once_more env req s t e (inl (inr h, rest)) = absurd (omega (arith, ap code_of h))
once_more env req s t e (inr (inl (inl h, rest))) = absurd (omega (arith, ap code_of h))
once_more env req s t e (inr (inl (inr h, rest))) = absurd (omega (arith, ap code_of h))
once_more env req s t e (inr (inr (h, (there, n)))) = (there, ground (arith, n, e))

-- A caller whose INVITE comes again in a call and is answered again waits twice, and has two listeners
-- open, of which the session knows the second only.
pub accept_call_again :
    (env later : Surroundings)
    (type_trunk route_trunk type_trunk' route_trunk' : Option SipTrunkEntry) (req req' : Invite)
    (s t u : Server)
    → req'.call_id ≡ req.call_id
    → same (role_in env req) (lit "caller") ≡ true
    → same (role_in later req') (lit "caller") ≡ true
    → accept_call env type_trunk route_trunk req s ≡ (t, responded 200)
    → accept_call later type_trunk' route_trunk' req' t ≡ (u, responded 200)
    → (waiting req.call_id u.live ≡ waiting req.call_id s.live + 2)
      × ((u.listeners ≡ next_port t ∷ next_port s ∷ s.listeners)
          × (get (key_in later req') u.live.sessions ≡ some (next_port t)))
accept_call_again env later type_trunk route_trunk type_trunk' route_trunk' req req' s t u same_call
      e e' h h' =
    let ((l, ss), n) =
      once_more env req s t e
        (subst (Placed env req s) h (accept_call-Placed env req s type_trunk route_trunk)) in
    let ((l', ss'), n') =
      once_more later req' t u e' (
        subst (Placed later req' t) h'
          (accept_call-Placed later req' t type_trunk' route_trunk')) in
    (
      omega (arith, n, subst (λ k. waiting k u.live ≡ waiting k t.live + 1) same_call n'),
      (l' ∙ ap (λ ls. next_port t ∷ ls) l, ss'),
    )
