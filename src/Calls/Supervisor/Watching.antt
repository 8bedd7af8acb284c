-- ===== src/Calls/Supervisor/Watching.antt =====
-- The taps and sessions of supervisors in gateway/supervisor.go.
use voiceagent.Base.{
  ℕ, suc, ◌+◌, ◌<◌, ◌≤◌, ◌≡◌, refl, ◌∙◌, true, false, List, [], ◌∷◌, ◌++◌, append_assoc, none, some,
  if◌then◌else◌, length, length-append, get_elem?, All, arith, Text, lit, same, same_iff, same_refl,
  is_empty, has_prefix, has_prefix-append, get, put, get-put, get-del,
}
use voiceagent.Calls.Conference.{
  ConferenceSession, CallSession, registered, drop_third_party, close_third, without_third,
}
use voiceagent.Calls.Conference.Lifetime.{get_elem-change}
use voiceagent.Calls.Supervisor.{
  SupervisorSession, Watch, connected, remove_tap, session_key, user_or_default, watch_call,
  join_call, handle_supervisor_monitor, stop_supervisor_session, drop_if_conference,
  handle_supervisor_stop, is_monitored, add_taps, drop_taps,
}

remove_tap-append :
    (tap : ℕ) (ts : List ℕ) → All (λ t. t < tap) ts → remove_tap tap (ts ++ (tap ∷ [])) ≡ ts
unfolding remove_tap
remove_tap-append tap [] h = ground arith
remove_tap-append tap (t ∷ ts) (h, hs) = ground (arith, h, remove_tap-append tap ts hs)

-- Taps that were handed out before the counter reached n.
abbrev pub OlderTaps : ℕ → CallSession → Type 0
OlderTaps n s = All (λ t. t < n) s.audio_taps × All (λ t. t < suc n) s.agent_taps

-- A request to listen that names a call and brings an offer.
abbrev pub Listens : Text → Text → Text → Type 0
Listens call_id mode sdp =
    (is_empty call_id ≡ false)
    × ((is_empty mode ≡ false)
        × ((is_empty sdp ≡ false)
            × ((same mode (lit "barge") ≡ false) × (same mode (lit "whisper") ≡ false))))

monitor_watches :
    (user call_id mode sdp : Text) (w : Watch) (s : CallSession)
    → Listens call_id mode sdp
    → get call_id w.floor.calls ≡ some s
    → (handle_supervisor_monitor connected user call_id mode sdp w).0
      ≡ watch_call call_id mode (user_or_default user) w
unfolding handle_supervisor_monitor join_call
monitor_watches user call_id mode sdp w s (c, (m, (o, (b, q)))) known =
    ground (arith, c, m, o, b, known)

module _ (call_id mode user : Text) (w : Watch) (s : CallSession)
    (known : get call_id w.floor.calls ≡ some s) (quiet : same mode (lit "whisper") ≡ false) where
  watch_call-calls :
      (j : Text)
      → get j (watch_call call_id mode user w).floor.calls
        ≡ (if same call_id j then some (add_taps w.next_tap s) else get j w.floor.calls)
  unfolding watch_call
  watch_call-calls j =
      ground (arith, known, quiet, get-put call_id j (add_taps w.next_tap s) w.floor.calls)

  watch_call-sessions :
      (j : Text)
      → get j (watch_call call_id mode user w).supervisors ≡ (
          if same (session_key call_id user) j
          then some (record {
            call_id = call_id;
            mode = mode;
            caller_tap = w.next_tap;
            agent_tap = suc w.next_tap;
          })
          else get j w.supervisors)
  unfolding watch_call
  watch_call-sessions j = get-put (session_key call_id user) j _ w.supervisors

module _ (call_id user : Text) (w : Watch) (v : SupervisorSession) (s : CallSession)
    (session : get (session_key call_id user) w.supervisors ≡ some v)
    (known : get v.call_id w.floor.calls ≡ some s) where
  stop-calls :
      (j : Text)
      → get j (stop_supervisor_session call_id user w).floor.calls
        ≡ (if same v.call_id j then some (drop_taps v s) else get j w.floor.calls)
  unfolding stop_supervisor_session
  stop-calls j = ground (arith, session, known, get-put v.call_id j (drop_taps v s) w.floor.calls)

  stop-sessions :
      (j : Text)
      → get j (stop_supervisor_session call_id user w).supervisors
        ≡ (if same (session_key call_id user) j then none else get j w.supervisors)
  unfolding stop_supervisor_session
  stop-sessions j = ground (arith, session, get-del (session_key call_id user) j w.supervisors)

stop_without_conference :
    (user call_id : Text) (w : Watch)
    → get call_id w.floor.conferences ≡ none
    → handle_supervisor_stop user call_id w
      ≡ stop_supervisor_session call_id (user_or_default user) w
unfolding handle_supervisor_stop drop_if_conference stop_supervisor_session
stop_without_conference user call_id w off = ground (arith, off)

abbrev watching : Text → Text → ℕ → SupervisorSession
watching call_id mode tap = record {
  call_id = call_id;
  mode = mode;
  caller_tap = tap;
  agent_tap = suc tap;
}

drop_taps-add_taps :
    (call_id mode : Text) (n : ℕ) (s : CallSession)
    → OlderTaps n s
    → same mode (lit "whisper") ≡ false
    → drop_taps (watching call_id mode n) (add_taps n s) ≡ s
drop_taps-add_taps call_id mode n s (a, b) quiet =
    rw (remove_tap-append n s.audio_taps a, remove_tap-append (suc n) s.agent_taps b, quiet) refl

module _ (call_id mode user : Text) (w : Watch) (s : CallSession)
    (known : get call_id w.floor.calls ≡ some s) (quiet : same mode (lit "whisper") ≡ false)
    (older : OlderTaps w.next_tap s) where
  stop-watch_call :
      (j : Text)
      → let after : Watch = stop_supervisor_session call_id user (watch_call call_id mode user w) in
        (get j after.floor.calls ≡ get j w.floor.calls)
        × (get j after.supervisors
            ≡ (if same (session_key call_id user) j then none else get j w.supervisors))
  stop-watch_call j =
      let w1 : Watch = watch_call call_id mode user w in
      let key : Text = session_key call_id user in
      let session = watch_call-sessions call_id mode user w s known quiet in
      let calls = watch_call-calls call_id mode user w s known quiet in
      let v : SupervisorSession = watching call_id mode w.next_tap in
      let on : get key w1.supervisors ≡ some v = ground (arith, session key, same_refl key) in
      let there : get call_id w1.floor.calls ≡ some (add_taps w.next_tap s) =
        ground (arith, calls call_id, same_refl call_id) in
      (
        ground (
          arith,
          stop-calls call_id user w1 v (add_taps w.next_tap s) on there j,
          drop_taps-add_taps call_id mode w.next_tap s older quiet,
          calls j,
          known,
          same_iff call_id j,
        ),
        ground
            (arith, stop-sessions call_id user w1 v (add_taps w.next_tap s) on there j, session j),
      )

-- A supervisor with no session on a call who listens to it and then stops leaves every call and every
-- supervisor's session as they were, where the call is in no conference.
pub handle_supervisor_stop-handle_supervisor_monitor :
    (user call_id mode sdp j : Text) (w : Watch) (s : CallSession)
    → Listens call_id mode sdp
    → get call_id w.floor.calls ≡ some s
    → get (session_key call_id (user_or_default user)) w.supervisors ≡ none
    → get call_id w.floor.conferences ≡ none
    → OlderTaps w.next_tap s
    → let after : Watch =
        handle_supervisor_stop user call_id
          (handle_supervisor_monitor connected user call_id mode sdp w).0 in
      (get j after.floor.calls ≡ get j w.floor.calls)
      × (get j after.supervisors ≡ get j w.supervisors)
handle_supervisor_stop-handle_supervisor_monitor user call_id mode sdp j w s listens known new off
      older =
    let u : Text = user_or_default user in
    let quiet = listens.1.1.1.1 in
    let both = stop-watch_call call_id mode u w s known quiet older j in
    let off1 : get call_id (watch_call call_id mode u w).floor.conferences ≡ none =
      unfold watch_call in off in
    rw
      (
        monitor_watches user call_id mode sdp w s listens known,
        stop_without_conference user call_id (watch_call call_id mode u w) off1,
      )
      (both.0, ground (arith, both.1, new, same_iff (session_key call_id u) j))

OlderTaps-add_taps : (n : ℕ) (s : CallSession) → OlderTaps n s → OlderTaps (n + 2) (add_taps n s)
OlderTaps-add_taps n s (a, b) = (
  extend n n (n + 2) s.audio_taps (omega arith) (omega arith) a,
  extend (suc n) (suc n) (suc (n + 2)) s.agent_taps (omega arith) (omega arith) b,
)
  where
    extend :
        (tap m k : ℕ) (ts : List ℕ)
        → tap < k
        → m ≤ k
        → All (λ t. t < m) ts
        → All (λ t. t < k) (ts ++ (tap ∷ []))
    extend tap m k [] h l hs = (h, tt)
    extend tap m k (t ∷ ts) h l (ht, hs) = (omega arith, extend tap m k ts h l hs)

-- A supervisor who asks twice to listen to a call, without a stop in between, and then stops, has no
-- session left, and both taps of the first request stay on the call, where the call is in no conference.
pub handle_supervisor_monitor_leaks :
    (user call_id mode sdp : Text) (w : Watch) (s : CallSession)
    → Listens call_id mode sdp
    → get call_id w.floor.calls ≡ some s
    → get call_id w.floor.conferences ≡ none
    → OlderTaps w.next_tap s
    → let once : Watch = (handle_supervisor_monitor connected user call_id mode sdp w).0 in
      let twice : Watch = (handle_supervisor_monitor connected user call_id mode sdp once).0 in
      let after : Watch = handle_supervisor_stop user call_id twice in
      (get call_id after.floor.calls
        ≡ some (record s {
          audio_taps = s.audio_taps ++ (w.next_tap ∷ []);
          agent_taps = s.agent_taps ++ (suc w.next_tap ∷ []);
        }))
      × (get (session_key call_id (user_or_default user)) after.supervisors ≡ none)
handle_supervisor_monitor_leaks user call_id mode sdp w s listens known off older =
    let u : Text = user_or_default user in
    let quiet = listens.1.1.1.1 in
    let w1 : Watch = watch_call call_id mode u w in
    let there : get call_id w1.floor.calls ≡ some (add_taps w.next_tap s) =
      ground (arith, watch_call-calls call_id mode u w s known quiet call_id, same_refl call_id) in
    let older1 : OlderTaps w1.next_tap (add_taps w.next_tap s) =
      unfold watch_call in OlderTaps-add_taps w.next_tap s older in
    let both = stop-watch_call call_id mode u w1 (add_taps w.next_tap s) there quiet older1 in
    let off2 : get call_id (watch_call call_id mode u w1).floor.conferences ≡ none =
      unfold watch_call in off in
    rw
      (
        monitor_watches user call_id mode sdp w s listens known,
        monitor_watches user call_id mode sdp w1 (add_taps w.next_tap s) listens there,
        stop_without_conference user call_id (watch_call call_id mode u w1) off2,
      )
      (
        (both call_id).0 ∙ there,
        ground (arith, (both (session_key call_id u)).1, same_refl (session_key call_id u)),
      )

-- When a supervisor stops, the third party of the call's conference no longer takes part, whether or not
-- this supervisor barged in, and even without a session of theirs.
pub handle_supervisor_stop_drops :
    (user call_id : Text) (i : ℕ) (c : ConferenceSession) (w : Watch)
    → get call_id w.floor.conferences ≡ some i
    → get_elem? w.floor.objects i ≡ some c
    → get_elem? (handle_supervisor_stop user call_id w).floor.objects i ≡ some (without_third c)
unfolding handle_supervisor_stop drop_if_conference stop_supervisor_session drop_third_party
    close_third registered
handle_supervisor_stop_drops user call_id i c w on at =
    ground (arith, on, at, get_elem-change i i without_third w.floor.objects c at)

is_monitored-put :
    (call_id key : Text) (v : SupervisorSession) (m : List (Text × SupervisorSession))
    → has_prefix key call_id ≡ true
    → length call_id < length key
    → is_monitored call_id (put key v m) ≡ true
unfolding is_monitored put
is_monitored-put call_id key v [] p l = ground (arith, p, l)
is_monitored-put call_id key v ((k, u) ∷ m) p l =
    ground (arith, p, l, is_monitored-put call_id key v m p l)

-- Once a supervisor listens to a call, every call whose id is a beginning of that call's id is listed as
-- monitored too.
pub is_monitored-handle_supervisor_monitor :
    (user call_id more mode sdp : Text) (w : Watch) (s : CallSession)
    → Listens (call_id ++ more) mode sdp
    → get (call_id ++ more) w.floor.calls ≡ some s
    → is_monitored call_id
        (handle_supervisor_monitor connected user (call_id ++ more) mode sdp w).0.supervisors
      ≡ true
is_monitored-handle_supervisor_monitor user call_id more mode sdp w s listens known =
    let u : Text = user_or_default user in
    let key : Text = session_key (call_id ++ more) u in
    let split_key : key ≡ call_id ++ (more ++ 58 ∷ u) =
      unfold session_key in append_assoc call_id more (58 ∷ u) in
    let p : has_prefix key call_id ≡ true =
      rw (split_key) (has_prefix-append call_id (more ++ 58 ∷ u)) in
    let l : length call_id < length key =
      rw (split_key)
        (omega (arith, length-append call_id (more ++ 58 ∷ u), length-append more (58 ∷ u))) in
    rw (monitor_watches user (call_id ++ more) mode sdp w s listens known)
      (unfold watch_call in is_monitored-put call_id key _ w.supervisors p l)
