-- ===== src/Sip/Invite.antt =====
-- The door of handleInvite in gateway/sipserver.go, which asks gateway/sip_security.go up to three times
-- about one INVITE. The request's headers and the random nonces are arguments.
pub mod Challenge
pub mod Twice
mod Tests
use voiceagent.Base.{
  ℕ, Bool, List, [], ◌∷◌, ◌++◌, Option, none, some, if◌then◌else◌, Text, lit, is_empty,
}
use voiceagent.Inbound.SipAuth.{
  SipTrunkEntry, AclEntry, Nonces, AuthResult, accepted, challenged, refused, param,
  parse_digest_params, authenticate_request,
}

-- A challenge with its realm and nonce, a refusal with its code, or a call that goes on, with the trunk
-- that its type is taken from and the trunk that its number is routed for.
pub data InviteAnswer : Type 0 where
  challenge : Text → Text → InviteAnswer
  denied : ℕ → InviteAnswer
  admitted : Option SipTrunkEntry → Option SipTrunkEntry → InviteAnswer

-- The text of the error that comes with a challenge.
unfoldable pub challenge_error : Text → SipTrunkEntry → Text
challenge_error nonce trunk = lit "nonce=" ++ (nonce ++ (lit ",realm=" ++ trunk.auth_realm))

unfoldable pub challenge_of : Text → InviteAnswer
challenge_of error =
    let params = parse_digest_params (lit "nonce=" ++ error) in
    let realm = param (lit "realm") params in
    challenge (if is_empty realm then lit "voiceagent" else realm) (param (lit "nonce") params)

-- The trunk that comes with an answer, the error dropped.
unfoldable pub trunk_of : AuthResult → Option SipTrunkEntry
trunk_of (accepted t) = some t
trunk_of (challenged t nonce) = some t
trunk_of (refused code) = none

-- One INVITE as gateway/sip_security.go sees it.
pub record InviteAuth : Type 0 where
  pub now : ℕ
  pub fresh : Text
  pub source : Text
  pub header : Option Text

pub record Rules : Type 0 where
  pub is_ip : Text → Bool
  pub trunks : List SipTrunkEntry
  pub acls : List AclEntry

abbrev pub ask : Rules → InviteAuth → Nonces → Nonces × AuthResult
ask rules r nonces =
    authenticate_request rules.is_ip r.now r.fresh r.source r.header rules.trunks rules.acls nonces

-- What follows the first answer; the third question is asked for a call in the role of caller.
unfoldable pub after_first : Rules → InviteAuth → Nonces × AuthResult → Nonces × InviteAnswer
unfolding challenge_of challenge_error trunk_of
after_first rules r (nonces, challenged trunk nonce) =
    (nonces, challenge_of (challenge_error nonce trunk))
after_first rules r (nonces, refused code) = (nonces, denied code)
after_first rules r (nonces, accepted t) =
    let second = ask rules r nonces in
    let third = ask rules r second.0 in (third.0, admitted (trunk_of second.1) (trunk_of third.1))

unfoldable pub admit_invite : Rules → InviteAuth → Nonces → Nonces × InviteAnswer
unfolding after_first
admit_invite rules r nonces = after_first rules r (ask rules r nonces)
