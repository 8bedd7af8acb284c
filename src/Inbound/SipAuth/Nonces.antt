-- ===== src/Inbound/SipAuth/Nonces.antt =====
-- The nonces of gateway/sip_security.go.
use voiceagent.Base.{
  ℕ, ◌+◌, ◌-◌, ◌≤◌, ◌≡◌, Bool, true, false, ◌&&◌, List, [], ◌∷◌, Option, none, some, if◌then◌else◌,
  arith, Text, lit, same, same_iff, same_refl, get, get-put, get-del,
}
use voiceagent.Inbound.SipAuth.{
  SipTrunkEntry, NonceEntry, Nonces, AuthResult, accepted, challenged, refused, seconds, param,
  parse_digest_params, generate_nonce, check_nonce, digest_auth,
}

abbrev pub nonce_of : Text → Text
nonce_of auth = param (lit "nonce") (parse_digest_params auth)

abbrev pub username_of : Text → Text
username_of auth = param (lit "username") (parse_digest_params auth)

pub record DigestRequest : Type 0 where
  pub now : ℕ
  pub fresh : Text
  pub header : Option Text
  pub trunk : SipTrunkEntry

abbrev is_accepted : AuthResult → Bool
is_accepted (accepted t) = true
is_accepted (challenged t nonce) = false
is_accepted (refused code) = false

abbrev uses : Text → Option Text → Bool
uses k none = false
uses k (some auth) = same (nonce_of auth) k

abbrev issues : Text → DigestRequest → Bool
issues k r = elim r.header [ none ↦ same r.fresh k | some _ ↦ false ]

abbrev count : Bool → ℕ
count b = if b then 1 else 0

abbrev pub accepted_with : Text → List DigestRequest → Nonces → ℕ
accepted_with k [] nonces = 0
accepted_with k (r ∷ rs) nonces =
    let (nonces', answer) = digest_auth r.now r.fresh r.header r.trunk nonces in
    count (uses k r.header && is_accepted answer) + accepted_with k rs nonces'

-- How often a challenge hands out the nonce.
abbrev pub issued : Text → List DigestRequest → ℕ
issued k [] = 0
issued k (r ∷ rs) = count (issues k r) + issued k rs

abbrev pub known : Text → Nonces → ℕ
known k nonces = elim (get k nonces) [ none ↦ 0 | some _ ↦ 1 ]

digest_auth-known :
    (k : Text) (now : ℕ) (fresh : Text) (header : Option Text) (trunk : SipTrunkEntry)
    (nonces : Nonces)
    → count (uses k header && is_accepted (digest_auth now fresh header trunk nonces).1)
        + known k (digest_auth now fresh header trunk nonces).0
      ≤ count (elim header [ none ↦ same fresh k | some _ ↦ false ]) + known k nonces
unfolding digest_auth generate_nonce check_nonce
digest_auth-known k now fresh none trunk nonces =
    ground (arith, get-put fresh k (record { trunk_id = trunk.id; created = now }) nonces)
digest_auth-known k now fresh (some auth) trunk nonces =
    ground (arith, get-del (nonce_of auth) k nonces, same_iff (nonce_of auth) k)

-- However requests interleave, the digest of a nonce lets in no more requests than challenges handed it
-- out, and one more if it was known at first: a nonce works once.
pub accepted_with-issued :
    (k : Text) (rs : List DigestRequest) (nonces : Nonces)
    → accepted_with k rs nonces ≤ issued k rs + known k nonces
accepted_with-issued k [] nonces = omega arith
accepted_with-issued k (r ∷ rs) nonces = omega (
  arith,
  digest_auth-known k r.now r.fresh r.header r.trunk nonces,
  accepted_with-issued k rs (digest_auth r.now r.fresh r.header r.trunk nonces).0,
)

-- A request that carries the nonce of the trunk's challenge and the trunk's user name is accepted up to
-- 30 seconds after the challenge. Nothing is asked of its "response", which proves the password.
pub digest_auth-after_challenge :
    (now later : ℕ) (fresh other : Text) (auth : Text) (trunk : SipTrunkEntry) (nonces : Nonces)
    → nonce_of auth ≡ fresh
    → username_of auth ≡ trunk.auth_user
    → later - now ≤ seconds 30
    → (digest_auth later other (some auth) trunk (digest_auth now fresh none trunk nonces).0).1
      ≡ accepted trunk
unfolding digest_auth generate_nonce check_nonce
digest_auth-after_challenge now later fresh other auth trunk nonces n u age =
    let entry : NonceEntry = record { trunk_id = trunk.id; created = now } in
    ground (
      arith,
      n,
      u,
      age,
      get-put fresh (nonce_of auth) entry nonces,
      same_iff fresh (nonce_of auth),
      same_refl trunk.id,
      same_iff (username_of auth) trunk.auth_user,
    )
