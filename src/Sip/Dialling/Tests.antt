-- ===== src/Sip/Dialling/Tests.antt =====
-- A call that is answered, and one that the trunk refuses.
use voiceagent.Base.{
  ℕ, ◌+◌, ◌≡◌, refl, true, false, [], ◌∷◌, ◌++◌, map, none, some, Text, lit, get, contains,
  has_prefix,
}
use voiceagent.Calls.Queue.{new_queue_manager}
use voiceagent.Access.Agents.{new_agent_session_manager}
use voiceagent.Sip.Ports.{new_port_pool}
use voiceagent.Sip.Hangup.{session_key}
use voiceagent.Sip.Answers.{crlf, rejected, before, await_answer, await_response}
use voiceagent.Sip.Dialling.{
  Phone, Network, Dialled, ended, get_or_create, session_for, keep_alive, make_outbound_call,
}
use voiceagent.Sip.Dialling.Released.{Outcome, waiting, make_outbound_call-Outcome}
use voiceagent.Sip.Dialling.Silence.{make_outbound_call_deaf}

abbrev idle : Phone
idle = record {
  ports = new_port_pool;
  registrations = [];
  sessions = [];
  copilots = [];
  bridges = [];
  queues = new_queue_manager;
  agents = new_agent_session_manager false (λ id. []);
  listeners = [];
  connections = 0;
}

abbrev line : Text → Text
line text = text ++ (crlf ++ crlf)

abbrev refusing : Network
refusing = record {
  opens = true;
  resolves = true;
  dials = true;
  datagrams = line (lit "SIP/2.0 100 Trying") ∷ line (lit "SIP/2.0 486 Busy Here") ∷ [];
}

abbrev answering : Network
answering = record refusing { datagrams = line (lit "SIP/2.0 200 OK") ∷ [] }

make_outbound_call-Outcome_example :
    let after : Phone × Dialled =
      make_outbound_call 7 (lit "q-1") (lit "o-1") (lit "100") (lit "200") [] refusing idle in
    Outcome (lit "o-1") idle after
    × (get (lit "o-1") after.0.copilots
        ≡ some (record {
          caller_number = lit "100";
          agent_number = lit "200";
          cancelled = (get_or_create (lit "o-1") idle.copilots).cancelled;
        }))
make_outbound_call-Outcome_example =
    make_outbound_call-Outcome 7 (lit "q-1") (lit "o-1") (lit "100") [] (lit "200") refusing idle

busy :
    (make_outbound_call 7 (lit "q-1") (lit "o-1") (lit "100") (lit "200") [] refusing idle).1
    ≡ ended (rejected (lit "SIP/2.0 486 Busy Here"))
unfolding make_outbound_call await_response contains before has_prefix await_answer
busy = refl

abbrev talking : Phone
talking = (make_outbound_call 7 (lit "q-1") (lit "o-1") (lit "100") (lit "200") [] answering idle).0

make_outbound_call_deaf_example :
    (port : ℕ) × (talking.listeners ≡ port ∷ idle.listeners)
    × let later : Phone =
        keep_alive port (lit "o-1") (map some (line (lit "OPTIONS") ∷ []) ++ (none ∷ [])) talking in
      (later.listeners ≡ idle.listeners)
      × ((get (session_key (lit "o-1") (lit "caller")) later.sessions
            ≡ some (session_for port (line (lit "SIP/2.0 200 OK"))))
          × (waiting (lit "o-1") later ≡ waiting (lit "o-1") idle + 1))
unfolding make_outbound_call await_response contains before has_prefix
make_outbound_call_deaf_example =
    make_outbound_call_deaf 7 (lit "q-1") (lit "o-1") (lit "100") [] (lit "200") answering idle
      talking (line (lit "SIP/2.0 200 OK")) (line (lit "OPTIONS") ∷ []) [] refl (refl, tt)
