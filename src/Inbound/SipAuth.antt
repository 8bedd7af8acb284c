-- ===== src/Inbound/SipAuth.antt =====
-- The authentication of a SIP request by gateway/sip_security.go. net.ParseIP, the networks of the net
-- package and the random bytes of a nonce are arguments; a time is a number of nanoseconds.
pub mod Trunks
pub mod Nonces
mod Tests
use voiceagent.Base.{
  ℕ, ◌-◌, ◌*◌, ◌^◌, Bool, true, false, ◌&&◌, ◌||◌, not, List, [], ◌∷◌, Option, none, some,
  if◌then◌else◌, ltb, Text, lit, same, is_empty, get, put, del, trim_space, trim_byte, trim_prefix,
  cut, split,
}

pub record SipTrunkEntry : Type 0 where
  pub id : Text
  pub address : Text
  pub auth_realm : Text
  pub auth_user : Text
  pub security_policy : Text

-- `contains` is the parsed network's Contains on the request's address, false for an entry that did
-- not parse.
pub record AclEntry : Type 0 where
  pub trunk_id : Text
  pub ip_address : Text
  pub contains : Text → Bool

pub record NonceEntry : Type 0 where
  pub trunk_id : Text
  pub created : ℕ

abbrev pub Nonces : Type 0
Nonces = List (Text × NonceEntry)

-- The answer: a trunk with code 0, a trunk with the challenge 401, or a refusal with its code.
pub data AuthResult : Type 0 where
  accepted : SipTrunkEntry → AuthResult
  challenged : SipTrunkEntry → Text → AuthResult
  refused : ℕ → AuthResult

abbrev pub seconds : ℕ → ℕ
seconds n = n * 10 ^ 9

-- The loops over the trunks.
unfoldable pub trunk_with_id : Text → List SipTrunkEntry → Option SipTrunkEntry
trunk_with_id id [] = none
trunk_with_id id (t ∷ trunks) = if same t.id id then some t else trunk_with_id id trunks

unfoldable pub trunk_with_address : Text → List SipTrunkEntry → Option SipTrunkEntry
trunk_with_address source [] = none
trunk_with_address source (t ∷ trunks) =
    if same t.address source then some t else trunk_with_address source trunks

-- The loop over the ACL; an entry that allows the address and names no loaded trunk is passed over.
unfoldable pub trunk_by_acl : Text → List SipTrunkEntry → List AclEntry → Option SipTrunkEntry
trunk_by_acl source trunks [] = none
trunk_by_acl source trunks (acl ∷ acls) =
    if acl.contains source || same acl.ip_address source
    then elim (trunk_with_id acl.trunk_id trunks) [
      | some t ↦ some t
      | none ↦ trunk_by_acl source trunks acls
    ]
    else trunk_by_acl source trunks acls

-- `is_ip` says that net.ParseIP reads the text.
unfoldable pub find_trunk_by_ip :
    (Text → Bool) → Text → List SipTrunkEntry → List AclEntry → Option SipTrunkEntry
find_trunk_by_ip is_ip source trunks acls =
    if is_ip source
    then elim (trunk_by_acl source trunks acls) [
      | some t ↦ some t
      | none ↦ trunk_with_address source trunks
    ]
    else none

unfoldable pub generate_nonce : ℕ → Text → Text → Nonces → Nonces
generate_nonce now nonce trunk nonces =
    put nonce (record { trunk_id = trunk; created = now }) nonces

-- A missing key of the header's parameters is the empty string.
unfoldable pub param : Text → List (Text × Text) → Text
param k params = elim (get k params) [ some v ↦ v | none ↦ [] ]

-- One part of the header; its text around the first `=`, byte 61, without quotes, byte 34.
unfoldable pub put_part : Text → List (Text × Text) → List (Text × Text)
put_part part params = elim (cut 61 (trim_space part)) [
  | none ↦ params
  | some (before, after) ↦ put (trim_space before) (trim_byte 34 (trim_space after)) params
]

unfoldable pub put_parts : List Text → List (Text × Text) → List (Text × Text)
put_parts [] params = params
put_parts (part ∷ parts) params = put_parts parts (put_part part params)

-- The parts of the header stand between commas, byte 44.
unfoldable pub parse_digest_params : Text → List (Text × Text)
parse_digest_params auth = put_parts (split 44 (trim_prefix auth (lit "Digest "))) []

-- The checks of digestAuth on a nonce that was found or not.
unfoldable pub check_nonce : ℕ → SipTrunkEntry → Text → Option NonceEntry → AuthResult
check_nonce now trunk username none = refused 403
check_nonce now trunk username (some entry) =
    if not (same entry.trunk_id trunk.id)
    then refused 403
    else if ltb (seconds 30) (now - entry.created)
    then refused 403
    else if not (same username trunk.auth_user)
    then refused 403
    else accepted trunk

-- The header is none when the request has none. The nonce is deleted when it is known, before anything
-- else is looked at; the parameters "response" and "uri" are read and dropped.
unfoldable pub digest_auth : ℕ → Text → Option Text → SipTrunkEntry → Nonces → Nonces × AuthResult
digest_auth now fresh none trunk nonces =
    (generate_nonce now fresh trunk.id nonces, challenged trunk fresh)
digest_auth now fresh (some auth) trunk nonces =
    let params = parse_digest_params auth in
    let nonce = param (lit "nonce") params in
    let username = param (lit "username") params in
    (del nonce nonces, check_nonce now trunk username (get nonce nonces))

-- The switch on the trunk's policy.
unfoldable pub apply_policy : ℕ → Text → Option Text → SipTrunkEntry → Nonces → Nonces × AuthResult
apply_policy now fresh header trunk nonces =
    if same trunk.security_policy (lit "disabled")
    then (nonces, accepted trunk)
    else if same trunk.security_policy (lit "permissive")
    then (nonces, accepted trunk)
    else if same trunk.security_policy (lit "strict")
    then (if is_empty trunk.auth_user
        then (nonces, accepted trunk)
        else digest_auth now fresh header trunk nonces)
    else (nonces, accepted trunk)

unfoldable pub authenticate_request :
    (Text → Bool)
    → ℕ
    → Text
    → Text
    → Option Text
    → List SipTrunkEntry
    → List AclEntry
    → Nonces
    → Nonces × AuthResult
authenticate_request is_ip now fresh source header trunks acls nonces =
    if is_empty trunks
    then (nonces, refused 503)
    else elim (find_trunk_by_ip is_ip source trunks acls) [
      | none ↦ (nonces, refused 403)
      | some trunk ↦ apply_policy now fresh header trunk nonces
    ]

-- One pass of cleanupNonces.
unfoldable pub cleanup_nonces : ℕ → Nonces → Nonces
cleanup_nonces now [] = []
cleanup_nonces now ((k, v) ∷ nonces) =
    let rest = cleanup_nonces now nonces in
    if ltb (seconds 60) (now - v.created) then rest else (k, v) ∷ rest
