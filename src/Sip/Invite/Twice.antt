-- ===== src/Sip/Invite/Twice.antt =====
-- The second and the third question that gateway/sipserver.go asks about one INVITE.
use voiceagent.Base.{◌≡◌, refl, none, some, arith, Text, same_refl, get, del, get-del}
use voiceagent.Inbound.SipAuth.{SipTrunkEntry, Nonces, accepted, refused, digest_auth, check_nonce}
use voiceagent.Inbound.SipAuth.Nonces.{nonce_of}
use voiceagent.Sip.Invite.{admitted, trunk_of, InviteAuth, Rules, ask, after_first, admit_invite}
use voiceagent.Sip.Invite.Challenge.{MeetsStrict, ask-strict}

-- A nonce that was deleted lets nobody in.
ask_deleted :
    (rules : Rules) (r : InviteAuth) (t : SipTrunkEntry) (auth : Text) (nonces : Nonces)
    → MeetsStrict rules r t
    → r.header ≡ some auth
    → get (nonce_of auth) nonces ≡ none
    → (ask rules r nonces).1 ≡ refused 403
unfolding digest_auth check_nonce
ask_deleted rules r t auth nonces strict armed gone =
    ground (arith, ask-strict rules r t nonces strict, armed, gone)

ask-nonces :
    (rules : Rules) (r : InviteAuth) (t : SipTrunkEntry) (auth : Text) (nonces : Nonces)
    → MeetsStrict rules r t
    → r.header ≡ some auth
    → (ask rules r nonces).0 ≡ del (nonce_of auth) nonces
unfolding digest_auth
ask-nonces rules r t auth nonces strict armed =
    ground (arith, ask-strict rules r t nonces strict, armed)

-- An INVITE that the digest of a strict trunk lets in goes on without its trunk: the first question
-- used up the nonce, so that neither the type of the call nor the routing of its number sees the trunk.
pub admit_invite_forgets :
    (rules : Rules) (r : InviteAuth) (t found : SipTrunkEntry) (auth : Text) (nonces : Nonces)
    → MeetsStrict rules r t
    → r.header ≡ some auth
    → (ask rules r nonces).1 ≡ accepted found
    → (admit_invite rules r nonces).1 ≡ admitted none none
unfolding admit_invite after_first trunk_of
admit_invite_forgets rules r t found auth nonces strict armed passed =
    let key : Text = nonce_of auth in
    let one : Nonces = (ask rules r nonces).0 in
    let used : get key one ≡ none = ground (
      arith,
      ask-nonces rules r t auth nonces strict armed,
      get-del key key nonces,
      same_refl key,
    ) in
    let two : Nonces = (ask rules r one).0 in
    let still : get key two ≡ none =
      ground
        (arith, ask-nonces rules r t auth one strict armed, get-del key key one, same_refl key) in
    let second = ask_deleted rules r t auth one strict armed used in
    let third = ask_deleted rules r t auth two strict armed still in
    let shape : ask rules r nonces ≡ (one, accepted found) = ground (arith, passed) in
    rw (shape, second, third) refl
