-- ===== src/Sip/Arrival/Tests.antt =====
-- A caller on a direct trunk, whose INVITE comes twice.
use voiceagent.Base.{
  ◌+◌, ◌≡◌, refl, pos, true, false, [], ◌∷◌, none, some, lit, same, get, has_prefix, contains,
}
use voiceagent.Calls.Queue.{new_queue_manager}
use voiceagent.Calls.Announcer.{new_queue_announcer}
use voiceagent.Inbound.Did.{first_route, match_did}
use voiceagent.Sip.Ports.{new_port_pool}
use voiceagent.Sip.Bodies.{parse_sdp_offer}
use voiceagent.Sip.Arrival.{
  Invite, Surroundings, Server, call_type, bodies, metadata, role_of, identified, destination,
  caller_number_of, enqueue, with_offer, accept_call,
}
use voiceagent.Sip.Arrival.Placed.{waiting, key_in, next_port, Placed, accept_call-Placed}
use voiceagent.Sip.Arrival.Again.{accept_call_again}

abbrev day : Surroundings
day = record {
  sdp_of = λ t. some (record {
    connection = some (lit "10.0.0.7");
    media = record { port = pos 4000; connection = none; formats = lit "8" ∷ [] } ∷ [];
  });
  xml_of = λ t. none;
  type_of = λ t. lit "direct";
  opens = true;
  regex = λ p n. none;
  parse_condition = λ t. none;
  today = lit "mon";
  clock = lit "10:00";
  routes = [];
  flow_of = λ id. none;
  heard = λ i j. [];
  cancelled = λ i. false;
  now = 5;
  entry_id = lit "q-1";
}

abbrev invite : Invite
invite = record {
  call_id = lit "c1";
  from_user = lit "100";
  to_user = lit "200";
  content_type = some (lit "application/sdp");
  body = lit "v=0";
  source_host = some (lit "10.0.0.7");
}

abbrev idle : Server
idle = record {
  pool = new_port_pool;
  live = record {
    sessions = [];
    closed = [];
    bridges = [];
    agents = [];
    announcer = new_queue_announcer;
    queues = new_queue_manager;
    ringing = [];
  };
  listeners = [];
  copilots = [];
}

abbrev once : Server
once = (accept_call day none none invite idle).0

abbrev twice : Server
twice = (accept_call day none none invite once).0

accept_call-Placed_example : Placed day invite idle (accept_call day none none invite idle)
accept_call-Placed_example = accept_call-Placed day invite idle none none

accept_call_again_example :
    (waiting (lit "c1") twice.live ≡ waiting (lit "c1") idle.live + 2)
    × ((twice.listeners ≡ next_port once ∷ next_port idle ∷ [])
        × (get (key_in day invite) twice.live.sessions ≡ some (next_port once)))
unfolding accept_call with_offer enqueue bodies call_type metadata role_of parse_sdp_offer
    destination caller_number_of same contains has_prefix match_did first_route identified
accept_call_again_example =
    accept_call_again day day none none none none invite invite idle once twice refl refl refl refl
      refl
