-- ===== src/Inbound/SipAuth/Tests.antt =====
-- One trunk of gateway/sip_security.go and a request that answers its challenge.
use voiceagent.Base.{
  ℕ, ◌+◌, ◌-◌, ◌*◌, ◌≤◌, ◌≡◌, refl, ◌⊎◌, inl, inr, Bool, true, false, ◌||◌, List, [], ◌∷◌, ◌++◌,
  Option, none, some, arith, Text, lit, same, get, put, split, cut, trim_space, trim_prefix,
  trim_byte, is_empty, del,
}
use voiceagent.Inbound.SipAuth.{
  SipTrunkEntry, AclEntry, Nonces, param, parse_digest_params, put_parts, put_part, check_nonce,
  digest_auth, authenticate_request, apply_policy, find_trunk_by_ip, trunk_by_acl, trunk_with_id,
}
use voiceagent.Inbound.SipAuth.Nonces.{
  DigestRequest, nonce_of, username_of, accepted_with, issued, known, accepted_with-issued,
}
use voiceagent.Inbound.SipAuth.Trunks.{authenticate_request-strict, GoodHeader}

abbrev carrier : SipTrunkEntry
carrier = record {
  id = lit "t1";
  address = lit "10.0.0.9";
  auth_realm = lit "sip";
  auth_user = lit "acme";
  security_policy = lit "strict";
}

abbrev office : AclEntry
office = record { trunk_id = lit "t1"; ip_address = lit "10.0.0.1"; contains = λ _. false }

abbrev any_ip : Text → Bool
any_ip _ = true

abbrev bare : Text
bare = lit "Digest username=acme, nonce=n1"

abbrev issued_n1 : Nonces
issued_n1 = (lit "n1", record { trunk_id = lit "t1"; created = 5 }) ∷ []

bare_nonce : nonce_of bare ≡ lit "n1"
unfolding param parse_digest_params put_parts put_part split cut trim_space trim_prefix trim_byte
    get put same voiceagent.Base.has_prefix
bare_nonce = refl

bare_username : username_of bare ≡ lit "acme"
unfolding param parse_digest_params put_parts put_part split cut trim_space trim_prefix trim_byte
    get put same voiceagent.Base.has_prefix
bare_username = refl

abbrev replayed : List DigestRequest
replayed =
    record { now = 5; fresh = lit "n1"; header = none; trunk = carrier }
    ∷ record { now = 9; fresh = []; header = some bare; trunk = carrier }
    ∷ record { now = 9; fresh = []; header = some bare; trunk = carrier }
    ∷ []

accepted_with-issued_example :
    accepted_with (lit "n1") replayed [] ≤ issued (lit "n1") replayed + known (lit "n1") []
accepted_with-issued_example = accepted_with-issued (lit "n1") replayed []

authenticate_request-strict_example :
    (find_trunk_by_ip any_ip (lit "10.0.0.1") (carrier ∷ []) (office ∷ []) ≡ some carrier)
    × GoodHeader 9 carrier (some bare) issued_n1
unfolding authenticate_request find_trunk_by_ip trunk_by_acl trunk_with_id apply_policy digest_auth
    check_nonce param parse_digest_params put_parts put_part split cut trim_space trim_prefix
    trim_byte get put same voiceagent.Base.has_prefix
authenticate_request-strict_example =
    authenticate_request-strict any_ip 9 [] (lit "10.0.0.1") (some bare) (carrier ∷ [])
      (office ∷ []) issued_n1 carrier refl refl refl
