-- ===== src/Sip/Dialling/Silence.antt =====
-- What becomes of an answered call of gateway/sip_uac.go.
use voiceagent.Base.{
  ℕ, ◌+◌, ◌≡◌, refl, ap, ◌∙◌, subst, false, List, [], ◌∷◌, ◌++◌, map, Option, none, some, All, Text,
  lit, contains, get,
}
use voiceagent.Sip.Hangup.{session_key}
use voiceagent.Sip.Answers.{read, answered}
use voiceagent.Sip.Dialling.{
  Phone, Network, ended, session_for, hang_up_line, keep_alive, close_listener, make_outbound_call,
}
use voiceagent.Sip.Dialling.Released.{Outcome, waiting, make_outbound_call-Outcome, close_opened}

-- A message without the letters of a BYE.
abbrev pub IsQuiet : Text → Type 0
IsQuiet m = contains (read m) (lit "BYE") ≡ false

keep_alive-silent :
    (port : ℕ) (call_id : Text) (ms : List Text) (reads : List (Option Text)) (s : Phone)
    → All IsQuiet ms
    → keep_alive port call_id (map some ms ++ (none ∷ reads)) s ≡ hang_up_line port s
unfolding keep_alive
keep_alive-silent port call_id [] reads s h = refl
keep_alive-silent port call_id (m ∷ ms) reads s (h, hs) =
    rw (h) (keep_alive-silent port call_id ms reads s hs)

-- A call that was answered and of whose connection nothing is read for two minutes loses its listener,
-- whatever came before that is no BYE: it still has its session, and waits in the queue.
pub make_outbound_call_deaf :
    (now : ℕ) (entry_id call_id number agent caller_id : Text) (net : Network) (s t : Phone)
    (response : Text) (ms : List Text) (reads : List (Option Text))
    → make_outbound_call now entry_id call_id number caller_id agent net s
      ≡ (t, ended (answered response))
    → All IsQuiet ms
    → (port : ℕ) × (t.listeners ≡ port ∷ s.listeners)
      × let later : Phone = keep_alive port call_id (map some ms ++ (none ∷ reads)) t in
        (later.listeners ≡ s.listeners)
        × ((get (session_key call_id (lit "caller")) later.sessions
              ≡ some (session_for port response))
            × (waiting call_id later ≡ waiting call_id s + 1))
make_outbound_call_deaf now entry_id call_id number agent caller_id net s t response ms reads h
      quiet =
    let outcome : Outcome call_id s (t, ended (answered response)) =
      subst (Outcome call_id s) h
        (make_outbound_call-Outcome now entry_id call_id number agent caller_id net s).0 in
    let (port, l, c, session, count) = outcome in
    let silent = keep_alive-silent port call_id ms reads t quiet in
    (
      port,
      l,
      rw (silent) (
          unfold hang_up_line in
          (ap (close_listener port) l ∙ close_opened port s.listeners, (session, count))),
    )
