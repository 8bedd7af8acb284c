-- ===== src/Calls/Distributor/Ringing.antt =====
-- What one pass of processQueues in gateway/acd.go does to the calls that ring.
use voiceagent.Base.{
  ℕ, ◌+◌, ◌-◌, ◌*◌, ◌<◌, ◌≡◌, refl, ap, ◌∙◌, ◌⊎◌, inl, inr, false, List, [], ◌∷◌, Option, none,
  some, if◌then◌else◌, arith, Text, same, same_iff, get, del, get-put, get-del, Bool-cases,
  Option-cases,
}
use voiceagent.Calls.Queue.{QueueEntry, QueueManager}
use voiceagent.Calls.Distributor.{
  AcdAgent, Ring, RingingCalls, second, assign, serve, process_queue, process_queues,
}

-- How often a call rings an agent.
abbrev pub rings_in : Text → List Ring → ℕ
rings_in call [] = 0
rings_in call (r ∷ rs) =
    let rest = rings_in call rs in if same r.call_id call then rest + 1 else rest

abbrev pub rings_of : Text → List (List Ring) → ℕ
rings_of call [] = 0
rings_of call (rs ∷ rss) = rings_in call rs + rings_of call rss

-- The step of a queue touches the first caller only.
assign-others :
    (best : Text → Option AcdAgent) (now : ℕ) (name call : Text) (c : QueueEntry)
    (ringing : RingingCalls)
    → same c.call_id call ≡ false
    → (get call (assign best now name c ringing).0 ≡ get call ringing)
      × (rings_in call (assign best now name c ringing).1 ≡ 0)
unfolding assign
assign-others best now name call c ringing other = elim (Option-cases (best name)) [
  | inl e ↦ ground (arith, e)
  | inr (a, e) ↦ ground (arith, e, get-put c.call_id call now ringing)
]

serve-others :
    (best : Text → Option AcdAgent) (now : ℕ) (name call : Text) (c : QueueEntry) (o : Option ℕ)
    (ringing : RingingCalls)
    → same c.call_id call ≡ false
    → (get call (serve best now name c o ringing).0 ≡ get call ringing)
      × (rings_in call (serve best now name c o ringing).1 ≡ 0)
unfolding serve
serve-others best now name call c none ringing other =
    assign-others best now name call c ringing other
serve-others best now name call c (some since) ringing other = ground (
  arith,
  assign-others best now name call c (del c.call_id ringing) other,
  get-del c.call_id call ringing,
)

serve-ringing :
    (best : Text → Option AcdAgent) (now : ℕ) (name : Text) (c : QueueEntry)
    (ringing : RingingCalls) (since : ℕ)
    → now - since < 30 * second
    → (o : Option ℕ) → o ≡ some since
    → serve best now name c o ringing ≡ (ringing, [])
unfolding serve
serve-ringing best now name c ringing since short none e = ground (arith, e)
serve-ringing best now name c ringing since short (some t) e = ground (arith, e)

-- A call that began to ring less than 30 seconds ago is left alone by the step of a queue.
process_queue-ringing :
    (best : Text → Option AcdAgent) (now : ℕ) (name call : Text) (callers : List QueueEntry)
    (ringing : RingingCalls) (since : ℕ)
    → get call ringing ≡ some since
    → now - since < 30 * second
    → (get call (process_queue best now name callers ringing).0 ≡ some since)
      × (rings_in call (process_queue best now name callers ringing).1 ≡ 0)
unfolding process_queue serve
process_queue-ringing best now name call [] ringing since rings short = (rings, refl)
process_queue-ringing best now name call (c ∷ cs) ringing since rings short =
    elim (Bool-cases (same c.call_id call)) [
      | inl e ↦
          let same_call =
            ap (λ (k : Text). get k ringing) ((same_iff c.call_id call).0 e) ∙ rings in
          let l = serve-ringing best now name c ringing since short _ same_call in
          (
            ap (λ (p : RingingCalls × List Ring). get call p.0) l ∙ rings,
            ap (λ (p : RingingCalls × List Ring). rings_in call p.1) l,
          )
      | inr other ↦
          let l = serve-others best now name call c (get c.call_id ringing) ringing other in
          (l.0 ∙ rings, l.1)
    ]

-- A call that began to ring less than 30 seconds ago stays as it is during a pass over all the queues,
-- and no agent is rung for it.
pub process_queues-ringing :
    (best : Text → Option AcdAgent) (now : ℕ) (call : Text) (qm : QueueManager)
    (ringing : RingingCalls) (since : ℕ)
    → get call ringing ≡ some since
    → now - since < 30 * second
    → (get call (process_queues best now qm ringing).0 ≡ some since)
      × (rings_of call (process_queues best now qm ringing).1 ≡ 0)
unfolding process_queues
process_queues-ringing best now call [] ringing since rings short = (rings, refl)
process_queues-ringing best now call ((name, q) ∷ qm) ringing since rings short =
    let here = process_queue-ringing best now name call q.callers ringing since rings short in
    let there = process_queues-ringing best now call qm _ since here.0 short in
    (there.0, omega (arith, here.1, there.1))

assign-once :
    (best : Text → Option AcdAgent) (now : ℕ) (name call : Text) (c : QueueEntry)
    (ringing : RingingCalls)
    → (rings_in call (assign best now name c ringing).1 ≡ 0)
      ⊎ ((rings_in call (assign best now name c ringing).1 ≡ 1)
          × (get call (assign best now name c ringing).0 ≡ some now))
unfolding assign
assign-once best now name call c ringing = elim (Option-cases (best name)) [
  | inl e ↦ ground (arith, e)
  | inr (a, e) ↦ ground (arith, e, get-put c.call_id call now ringing)
]

serve-once :
    (best : Text → Option AcdAgent) (now : ℕ) (name call : Text) (c : QueueEntry) (o : Option ℕ)
    (ringing : RingingCalls)
    → (rings_in call (serve best now name c o ringing).1 ≡ 0)
      ⊎ ((rings_in call (serve best now name c o ringing).1 ≡ 1)
          × (get call (serve best now name c o ringing).0 ≡ some now))
unfolding serve
serve-once best now name call c none ringing = assign-once best now name call c ringing
serve-once best now name call c (some since) ringing =
    ground (arith, assign-once best now name call c (del c.call_id ringing))

process_queue-once :
    (best : Text → Option AcdAgent) (now : ℕ) (name call : Text) (callers : List QueueEntry)
    (ringing : RingingCalls)
    → (rings_in call (process_queue best now name callers ringing).1 ≡ 0)
      ⊎ ((rings_in call (process_queue best now name callers ringing).1 ≡ 1)
          × (get call (process_queue best now name callers ringing).0 ≡ some now))
unfolding process_queue
process_queue-once best now name call [] ringing = inl refl
process_queue-once best now name call (c ∷ cs) ringing =
    serve-once best now name call c (get c.call_id ringing) ringing

-- In one pass a call rings at most one agent, whatever the number of queues it waits in, and when it
-- rings one the time of the pass is noted for it.
pub process_queues-once :
    (best : Text → Option AcdAgent) (now : ℕ) (call : Text) (qm : QueueManager)
    (ringing : RingingCalls)
    → (rings_of call (process_queues best now qm ringing).1 ≡ 0)
      ⊎ ((rings_of call (process_queues best now qm ringing).1 ≡ 1)
          × (get call (process_queues best now qm ringing).0 ≡ some now))
unfolding process_queues
process_queues-once best now call [] ringing = inl refl
process_queues-once best now call ((name, q) ∷ qm) ringing =
    elim (process_queue-once best now name call q.callers ringing) [
      | inl none_here ↦
          elim (process_queues-once best now call qm
            (process_queue best now name q.callers ringing).0) [
              | inl e ↦ inl (omega (arith, none_here, e))
              | inr (e, noted) ↦ inr (omega (arith, none_here, e), noted)
            ]
      | inr (one, noted) ↦
          let there =
            process_queues-ringing best now call qm
              (process_queue best now name q.callers ringing).0 now noted (omega arith) in
          inr (omega (arith, one, there.1), there.0)
    ]
