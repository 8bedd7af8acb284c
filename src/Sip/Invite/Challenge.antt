-- ===== src/Sip/Invite/Challenge.antt =====
-- The challenge that gateway/sipserver.go sends, and the client that answers it.
use voiceagent.Base.{
  ℕ, ◌≡◌, refl, ap, ◌∙◌, true, false, List, [], ◌∷◌, ◌++◌, none, some, if◌then◌else◌, ◌==◌, All,
  length, arith, Text, lit, same, same_iff, is_empty, get, put, get-put, cut, has_prefix, NotSpace,
  All-weaken, All-append, trim_space_id, trim_byte_id, trim_prefix, split, split-append, split_one,
  Bool-cases, inl, inr,
}
use voiceagent.Inbound.SipAuth.{
  SipTrunkEntry, NonceEntry, Nonces, challenged, refused, param, put_part, put_parts,
  parse_digest_params, check_nonce, generate_nonce, digest_auth, apply_policy, find_trunk_by_ip,
  authenticate_request,
}
use voiceagent.Inbound.SipAuth.Nonces.{nonce_of}
use voiceagent.Sip.Invite.{
  challenge, denied, challenge_error, challenge_of, InviteAuth, Rules, ask, after_first,
  admit_invite,
}

-- No comma, no double quote, and no white space.
abbrev pub IsPlainByte : ℕ → Type 0
IsPlainByte c = ((c == 44) ≡ false) × (((c == 34) ≡ false) × NotSpace c)

abbrev NoComma : ℕ → Type 0
NoComma c = (c == 44) ≡ false

abbrev NoQuote : ℕ → Type 0
NoQuote c = (c == 34) ≡ false

abbrev NoEquals : ℕ → Type 0
NoEquals c = (c == 61) ≡ false

cut-name :
    (name value : Text) → All NoEquals name → cut 61 (name ++ 61 ∷ value) ≡ some (name, value)
unfolding cut
cut-name [] value h = refl
cut-name (c ∷ name) value (h, hs) = ground (arith, h, cut-name name value hs)

plain-NotSpace : (s : Text) → All IsPlainByte s → All NotSpace s
plain-NotSpace s h = All-weaken IsPlainByte NotSpace (λ c p. p.1.1) s h

-- A name and a plain value around an equals sign, byte 61.
put_part-named :
    (name value : Text) (params : List (Text × Text))
    → All NoEquals name
    → All IsPlainByte name
    → All IsPlainByte value
    → put_part (name ++ 61 ∷ value) params ≡ put name value params
unfolding put_part
put_part-named name value params h hn hv = ground (
  arith,
  trim_space_id (name ++ 61 ∷ value) (
      All-append NotSpace name (61 ∷ value) (plain-NotSpace name hn)
        (ground arith, plain-NotSpace value hv)),
  cut-name name value h,
  trim_space_id name (plain-NotSpace name hn),
  trim_space_id value (plain-NotSpace value hv),
  trim_byte_id 34 value (All-weaken IsPlainByte NoQuote (λ c p. p.1.0) value hv),
)

plain_nonce : (nonce : Text) → All IsPlainByte nonce → All IsPlainByte (lit "nonce=" ++ nonce)
plain_nonce nonce h = All-append IsPlainByte (lit "nonce=") nonce (ground arith) h

challenge_params :
    (nonce : Text) (trunk : SipTrunkEntry)
    → All IsPlainByte nonce
    → All IsPlainByte trunk.auth_realm
    → parse_digest_params (lit "nonce=" ++ challenge_error nonce trunk)
      ≡ put (lit "realm") trunk.auth_realm (put (lit "nonce") (lit "nonce=" ++ nonce) [])
unfolding parse_digest_params put_parts challenge_error
challenge_params nonce trunk hn hr =
    let first : Text = lit "nonce=nonce=" ++ nonce in
    let second : Text = lit "realm=" ++ trunk.auth_realm in
    let whole : trim_prefix (first ++ 44 ∷ second) (lit "Digest ") ≡ first ++ 44 ∷ second =
      unfold trim_prefix has_prefix in refl in
    let comma : (s : Text) → All IsPlainByte s → All NoComma s =
      λ s h. All-weaken IsPlainByte NoComma (λ c p. p.0) s h in
    let parts : split 44 (first ++ 44 ∷ second) ≡ first ∷ second ∷ [] =
      split-append first second
        (comma first (plain_nonce (lit "nonce=" ++ nonce) (plain_nonce nonce hn)))
      ∙ ap (λ r. first ∷ r)
          (split_one second (
            comma second
              (All-append IsPlainByte (lit "realm=") trunk.auth_realm (ground arith) hr))) in
    let one : put_part first [] ≡ put (lit "nonce") (lit "nonce=" ++ nonce) [] =
      put_part-named (lit "nonce") (lit "nonce=" ++ nonce) [] (ground arith) (ground arith)
        (plain_nonce nonce hn) in
    ap (λ t. put_parts (split 44 t) []) whole
    ∙ ap (λ ps. put_parts ps []) parts
    ∙ ap (put_part second) one
    ∙ put_part-named (lit "realm") trunk.auth_realm (put (lit "nonce") (lit "nonce=" ++ nonce) [])
        (ground arith) (ground arith) hr

-- The nonce of the challenge is the one that was made, after the word nonce and an equals sign.
challenge_of-nonce :
    (nonce : Text) (trunk : SipTrunkEntry)
    → All IsPlainByte nonce
    → All IsPlainByte trunk.auth_realm
    → (realm : Text) × (challenge_of (challenge_error nonce trunk)
        ≡ challenge realm (lit "nonce=" ++ nonce))
unfolding challenge_of param
challenge_of-nonce nonce trunk hn hr =
    let params =
      put (lit "realm") trunk.auth_realm (put (lit "nonce") (lit "nonce=" ++ nonce) []) in
    let found : get (lit "nonce") params ≡ some (lit "nonce=" ++ nonce) =
      unfold put get same in refl in
    (
      (let r = param (lit "realm") params in if is_empty r then lit "voiceagent" else r),
      ground (arith, challenge_params nonce trunk hn hr, found),
    )

longer : (nonce : Text) → same nonce (lit "nonce=" ++ nonce) ≡ false
longer nonce = elim (Bool-cases (same nonce (lit "nonce=" ++ nonce))) [
  | inr e ↦ e
  | inl e ↦
      let q : nonce ≡ lit "nonce=" ++ nonce = (same_iff nonce (lit "nonce=" ++ nonce)).0 e in
      absurd (omega (arith, ap length q))
]

-- A strict trunk that an INVITE without credentials comes from.
unfoldable pub MeetsStrict : Rules → InviteAuth → SipTrunkEntry → Type 0
MeetsStrict rules r t =
    (is_empty rules.trunks ≡ false)
    × ((find_trunk_by_ip rules.is_ip r.source rules.trunks rules.acls ≡ some t)
        × ((t.security_policy ≡ lit "strict") × (is_empty t.auth_user ≡ false)))

pub ask-strict :
    (rules : Rules) (r : InviteAuth) (t : SipTrunkEntry) (nonces : Nonces)
    → MeetsStrict rules r t
    → ask rules r nonces ≡ digest_auth r.now r.fresh r.header t nonces
unfolding MeetsStrict authenticate_request apply_policy same
ask-strict rules r t nonces (full, (found, (strict, user))) =
    let policy : (p : Text)
        → p ≡ lit "strict"
        → (same p (lit "disabled") ≡ false)
          × ((same p (lit "permissive") ≡ false) × (same p (lit "strict") ≡ true)) =
      λ p e. rw (e) (refl, (refl, refl)) in
    ground (arith, full, found, policy t.security_policy strict, user)

-- A client without credentials at a strict trunk is challenged, and when it answers with the nonce of
-- the challenge it is refused with 403, whoever it is and however soon it answers: the nonce was sent
-- with a prefix that the server does not know. Nonce and realm hold no comma, quote or white space, and
-- no nonce with that prefix was known.
pub admit_invite_refuses :
    (rules : Rules) (r again : InviteAuth) (t : SipTrunkEntry) (nonces : Nonces) (auth : Text)
    → r.header ≡ none
    → again.header ≡ some auth
    → MeetsStrict rules r t
    → MeetsStrict rules again t
    → All IsPlainByte r.fresh
    → All IsPlainByte t.auth_realm
    → get (lit "nonce=" ++ r.fresh) nonces ≡ none
    → (realm nonce : Text) × (((admit_invite rules r nonces).1 ≡ challenge realm nonce)
        × (nonce_of auth ≡ nonce
            → (admit_invite rules again (admit_invite rules r nonces).0).1 ≡ denied 403))
unfolding admit_invite after_first digest_auth generate_nonce check_nonce
admit_invite_refuses rules r again t nonces auth bare armed strict strict' plain plain_realm
      unknown =
    let first : ask rules r nonces
        ≡ (generate_nonce r.now r.fresh t.id nonces, challenged t r.fresh) =
      ground (arith, ask-strict rules r t nonces strict, bare) in
    let after : Nonces = generate_nonce r.now r.fresh t.id nonces in
    let (realm, sent) = challenge_of-nonce r.fresh t plain plain_realm in
    let entry : NonceEntry = record { trunk_id = t.id; created = r.now } in
    (
      realm,
      lit "nonce=" ++ r.fresh,
      (
        ground (arith, first, sent),
        λ echoed.
            (let gone : get (nonce_of auth) after ≡ none = rw (echoed) (
                ground (
                  arith,
                  get-put r.fresh (lit "nonce=" ++ r.fresh) entry nonces,
                  longer r.fresh,
                  unknown,
                )) in
              let second : (ask rules again after).1 ≡ refused 403 =
                ground (arith, ask-strict rules again t after strict', armed, gone) in
              let state : (admit_invite rules r nonces).0 ≡ after = ground (arith, first) in
              rw (state) (ground (arith, second))),
      ),
    )
