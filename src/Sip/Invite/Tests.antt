-- ===== src/Sip/Invite/Tests.antt =====
-- A strict trunk and a client that calls over it.
use voiceagent.Base.{◌≡◌, refl, true, [], ◌∷◌, none, some, arith, Text, lit, same, get}
use voiceagent.Inbound.SipAuth.{SipTrunkEntry, find_trunk_by_ip, trunk_by_acl, trunk_with_address}
use voiceagent.Inbound.SipAuth.Nonces.{nonce_of}
use voiceagent.Sip.Invite.{challenge, denied, InviteAuth, Rules, admit_invite}
use voiceagent.Sip.Invite.Challenge.{MeetsStrict, admit_invite_refuses}

abbrev carrier : SipTrunkEntry
carrier = record {
  id = lit "t1";
  address = lit "10.0.0.9";
  auth_realm = lit "sip";
  auth_user = lit "acme";
  security_policy = lit "strict";
}

abbrev door : Rules
door = record { is_ip = λ s. true; trunks = carrier ∷ []; acls = [] }

abbrev bare : InviteAuth
bare = record { now = 5; fresh = lit "a1"; source = lit "10.0.0.9"; header = none }

abbrev answer : Text
answer = lit "Digest username=acme, nonce=n1"

-- The answer to the challenge for the nonce a1, as it was sent.
abbrev echo : Text
echo = lit "Digest username=acme, nonce=nonce=a1"

abbrev echoing : InviteAuth
echoing = record { now = 6; fresh = lit "a2"; source = lit "10.0.0.9"; header = some echo }

meets : (r : InviteAuth) → r.source ≡ lit "10.0.0.9" → MeetsStrict door r carrier
unfolding MeetsStrict find_trunk_by_ip trunk_by_acl trunk_with_address same
meets r h = (refl, (rw (h) refl, (refl, refl)))

admit_invite_refuses_example :
    (realm nonce : Text) × (((admit_invite door bare []).1 ≡ challenge realm nonce)
      × (nonce_of echo ≡ nonce
          → (admit_invite door echoing (admit_invite door bare []).0).1 ≡ denied 403))
unfolding get
admit_invite_refuses_example =
    admit_invite_refuses door bare echoing carrier [] echo refl refl (meets bare refl)
      (meets echoing refl) (ground arith) (ground arith) refl
