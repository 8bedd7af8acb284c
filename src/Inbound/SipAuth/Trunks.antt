-- ===== src/Inbound/SipAuth/Trunks.antt =====
-- Whom gateway/sip_security.go lets in.
use mathlib.Core.List.{Mem, mem-cons_self, mem-cons_of_mem}
use mathlib.Core.Option.{some-injective}
use voiceagent.Base.{
  ℕ, ◌-◌, ◌≤◌, ◌≡◌, refl, sym, subst, ap, ◌∙◌, ◌⊎◌, inl, inr, Bool, true, false, ◌||◌, List, [],
  ◌∷◌, Option, none, some, arith, Text, lit, same, same_iff, is_empty, if_elim, get,
}
use voiceagent.Inbound.SipAuth.{
  SipTrunkEntry, AclEntry, NonceEntry, Nonces, AuthResult, accepted, refused, seconds,
  trunk_with_id, trunk_with_address, trunk_by_acl, find_trunk_by_ip, check_nonce, digest_auth,
  apply_policy, authenticate_request,
}
use voiceagent.Inbound.SipAuth.Nonces.{nonce_of, username_of}

-- The list of access or the trunk's own address lets the source in.
abbrev pub LetsIn : Text → List AclEntry → SipTrunkEntry → Type 0
LetsIn source acls t =
    (t.address ≡ source)
    ⊎ ((acl : AclEntry) × Mem acl acls
        × (acl.trunk_id ≡ t.id)
        × ((acl.contains source || same acl.ip_address source) ≡ true))

-- What a nonce must be for its check to pass.
abbrev pub GoodNonce : ℕ → SipTrunkEntry → Text → Option NonceEntry → Type 0
GoodNonce now t username o =
    (entry : NonceEntry) × (o ≡ some entry)
    × (entry.trunk_id ≡ t.id)
    × (now - entry.created ≤ seconds 30)
    × (username ≡ t.auth_user)

check_nonce-accepted :
    (now : ℕ) (u t : SipTrunkEntry) (username : Text) (o : Option NonceEntry)
    → check_nonce now u username o ≡ accepted t
    → (u ≡ t) × GoodNonce now u username o
unfolding check_nonce
check_nonce-accepted now u t username none e = ground (arith, e)
check_nonce-accepted now u t username (some entry) e = (
  ground (arith, e),
  (
    entry,
    refl,
    ground (arith, e, same_iff entry.trunk_id u.id),
    ground (arith, e),
    ground (arith, e, same_iff username u.auth_user),
  ),
)

-- The header of a request carries a good nonce.
abbrev pub GoodHeader : ℕ → SipTrunkEntry → Option Text → Nonces → Type 0
GoodHeader now t header nonces =
    (auth : Text) × (header ≡ some auth)
    × GoodNonce now t (username_of auth) (get (nonce_of auth) nonces)

digest_auth-accepted :
    (now : ℕ) (fresh : Text) (header : Option Text) (u t : SipTrunkEntry) (nonces : Nonces)
    → (digest_auth now fresh header u nonces).1 ≡ accepted t
    → (u ≡ t) × GoodHeader now u header nonces
unfolding digest_auth
digest_auth-accepted now fresh none u t nonces e = ground (arith, e)
digest_auth-accepted now fresh (some auth) u t nonces e =
    let c = check_nonce-accepted now u t (username_of auth) (get (nonce_of auth) nonces) e in
    (c.0, (auth, refl, c.1))

apply_policy-accepted :
    (now : ℕ) (fresh : Text) (header : Option Text) (u t : SipTrunkEntry) (nonces : Nonces)
    → (apply_policy now fresh header u nonces).1 ≡ accepted t
    → (u ≡ t)
      × (u.security_policy ≡ lit "strict"
          → is_empty u.auth_user ≡ false
          → GoodHeader now u header nonces)
unfolding apply_policy same
apply_policy-accepted now fresh header u t nonces =
    let Goal : Nonces × AuthResult → Type 0 = λ r.
      r.1 ≡ accepted t
      → (u ≡ t)
        × (u.security_policy ≡ lit "strict"
            → is_empty u.auth_user ≡ false
            → GoodHeader now u header nonces) in
    if_elim Goal _ _ (same u.security_policy (lit "disabled"))
      (λ h e.
        (cc, λ strict _. ground (arith, subst (λ s. same s (lit "disabled") ≡ true) strict h)))
      (λ _.
        if_elim Goal _ _ (same u.security_policy (lit "permissive"))
          (λ h e. (
            cc,
            λ strict _. ground (arith, subst (λ s. same s (lit "permissive") ≡ true) strict h),
          ))
          (λ _.
            if_elim Goal _ _ (same u.security_policy (lit "strict"))
              (λ _.
                if_elim Goal _ _ (is_empty u.auth_user)
                  (λ h e. (cc, λ _ named. ground (arith, h, named)))
                  (λ _ e.
                    let d = digest_auth-accepted now fresh header u t nonces e in
                    (d.0, λ _ _. d.1)))
              (λ h e. (
                cc,
                λ strict _. ground (arith, (same_iff u.security_policy (lit "strict")).1 strict, h),
              ))))

-- A request that gets in under the policy "strict" at a trunk with a user name comes from an address
-- that finds that trunk, and carries that user name with a nonce issued for the trunk at most 30
-- seconds ago.
pub authenticate_request-strict :
    (is_ip : Text → Bool) (now : ℕ) (fresh source : Text) (header : Option Text)
    (trunks : List SipTrunkEntry) (acls : List AclEntry) (nonces : Nonces) (t : SipTrunkEntry)
    → (authenticate_request is_ip now fresh source header trunks acls nonces).1 ≡ accepted t
    → t.security_policy ≡ lit "strict"
    → is_empty t.auth_user ≡ false
    → (find_trunk_by_ip is_ip source trunks acls ≡ some t) × GoodHeader now t header nonces
unfolding authenticate_request
authenticate_request-strict is_ip now fresh source header trunks acls nonces t e policy user =
    if_elim (λ (r : Nonces × AuthResult). r.1 ≡ accepted t → Strict) _ _ (is_empty trunks)
      (λ _ e. ground (arith, e)) (λ _. found (find_trunk_by_ip is_ip source trunks acls) refl) e
  where
    Strict : Type 0
    Strict = (find_trunk_by_ip is_ip source trunks acls ≡ some t) × GoodHeader now t header nonces

    found :
        (o : Option SipTrunkEntry)
        → find_trunk_by_ip is_ip source trunks acls ≡ o
        → (let r : Nonces × AuthResult = elim o [
          | none ↦ (nonces, refused 403)
          | some u ↦ apply_policy now fresh header u nonces
        ] in
            r.1 ≡ accepted t → Strict)
    found none _ e = ground (arith, e)
    found (some u) at e =
        let a = apply_policy-accepted now fresh header u t nonces e in
        (
          at ∙ ap some a.0,
          subst (λ v. GoodHeader now v header nonces) a.0
              (a.1 (ap (λ (v : SipTrunkEntry). v.security_policy) a.0 ∙ policy)
                (ap (λ (v : SipTrunkEntry). is_empty v.auth_user) a.0 ∙ user)),
        )

trunk_with_id-Mem :
    (id : Text) (trunks : List SipTrunkEntry) (t : SipTrunkEntry)
    → trunk_with_id id trunks ≡ some t
    → Mem t trunks × (id ≡ t.id)
unfolding trunk_with_id
trunk_with_id-Mem id [] t e = ground (arith, e)
trunk_with_id-Mem id (u ∷ trunks) t e0 =
    if_elim (λ o. o ≡ some t → Mem t (u ∷ trunks) × (id ≡ t.id)) _ _ (same u.id id)
      (λ h e. (
        subst (λ v. Mem v (u ∷ trunks)) (some-injective u t e) mem-cons_self,
        sym ((same_iff u.id id).0 h) ∙ ap (λ (v : SipTrunkEntry). v.id) (some-injective u t e),
      ))
      (λ _ e. let r = trunk_with_id-Mem id trunks t e in (mem-cons_of_mem u r.0, r.1)) e0

trunk_with_address-Mem :
    (source : Text) (trunks : List SipTrunkEntry) (t : SipTrunkEntry)
    → trunk_with_address source trunks ≡ some t
    → Mem t trunks × (t.address ≡ source)
unfolding trunk_with_address
trunk_with_address-Mem source [] t e = ground (arith, e)
trunk_with_address-Mem source (u ∷ trunks) t e0 =
    if_elim (λ o. o ≡ some t → Mem t (u ∷ trunks) × (t.address ≡ source)) _ _
      (same u.address source)
      (λ h e. (
        subst (λ v. Mem v (u ∷ trunks)) (some-injective u t e) mem-cons_self,
        ap (λ (v : SipTrunkEntry). v.address) (sym (some-injective u t e))
            ∙ (same_iff u.address source).0 h,
      ))
      (λ _ e. let r = trunk_with_address-Mem source trunks t e in (mem-cons_of_mem u r.0, r.1)) e0

LetsIn-cons :
    (source : Text) (trunks : List SipTrunkEntry) (acl : AclEntry) (acls : List AclEntry)
    (t : SipTrunkEntry)
    → Mem t trunks × LetsIn source acls t
    → Mem t trunks × LetsIn source (acl ∷ acls) t
LetsIn-cons source trunks acl acls t (m, inl address) = (m, inl address)
LetsIn-cons source trunks acl acls t (m, inr (a, listed, id, ok)) =
    (m, inr (a, mem-cons_of_mem acl listed, id, ok))

-- The trunk that an entry allowing the source names, or the one that the rest of the list finds.
allowed-LetsIn :
    (source : Text) (trunks : List SipTrunkEntry) (acl : AclEntry) (acls : List AclEntry)
    (t : SipTrunkEntry) (rest : Option SipTrunkEntry)
    → (acl.contains source || same acl.ip_address source) ≡ true
    → (rest ≡ some t → Mem t trunks × LetsIn source (acl ∷ acls) t)
    → (o : Option SipTrunkEntry) → trunk_with_id acl.trunk_id trunks ≡ o
    → (let r : Option SipTrunkEntry = elim o [ some u ↦ some u | none ↦ rest ] in
        r ≡ some t → Mem t trunks × LetsIn source (acl ∷ acls) t)
allowed-LetsIn source trunks acl acls t rest h later none at e = later e
allowed-LetsIn source trunks acl acls t rest h later (some u) at e =
    let r = trunk_with_id-Mem acl.trunk_id trunks t (at ∙ e) in
    (r.0, inr (acl, mem-cons_self, r.1, h))

trunk_by_acl-LetsIn :
    (source : Text) (trunks : List SipTrunkEntry) (acls : List AclEntry) (t : SipTrunkEntry)
    → trunk_by_acl source trunks acls ≡ some t
    → Mem t trunks × LetsIn source acls t
unfolding trunk_by_acl
trunk_by_acl-LetsIn source trunks [] t e = ground (arith, e)
trunk_by_acl-LetsIn source trunks (acl ∷ acls) t e0 =
    let later = λ (e : trunk_by_acl source trunks acls ≡ some t).
      LetsIn-cons source trunks acl acls t (trunk_by_acl-LetsIn source trunks acls t e) in
    if_elim (λ o. o ≡ some t → Mem t trunks × LetsIn source (acl ∷ acls) t) _ _
      (acl.contains source || same acl.ip_address source)
      (λ h.
        allowed-LetsIn source trunks acl acls t (trunk_by_acl source trunks acls) h later
          (trunk_with_id acl.trunk_id trunks) refl)
      (λ _. later) e0

-- A trunk found for a source address is a loaded one, whose address it is or that an entry of the
-- access list which allows the source names.
pub find_trunk_by_ip-LetsIn :
    (is_ip : Text → Bool) (source : Text) (trunks : List SipTrunkEntry) (acls : List AclEntry)
    (t : SipTrunkEntry)
    → find_trunk_by_ip is_ip source trunks acls ≡ some t
    → (is_ip source ≡ true) × Mem t trunks × LetsIn source acls t
unfolding find_trunk_by_ip
find_trunk_by_ip-LetsIn is_ip source trunks acls t =
    if_elim (λ o. o ≡ some t → (is_ip source ≡ true) × Mem t trunks × LetsIn source acls t) _ _
      (is_ip source)
      (λ h e. let f = found (trunk_by_acl source trunks acls) refl e in (h, f.0, f.1))
      (λ _ e. ground (arith, e))
  where
    found :
        (o : Option SipTrunkEntry)
        → trunk_by_acl source trunks acls ≡ o
        → (let r : Option SipTrunkEntry = elim o [
          | some u ↦ some u
          | none ↦ trunk_with_address source trunks
        ] in
            r ≡ some t → Mem t trunks × LetsIn source acls t)
    found none at e = let r = trunk_with_address-Mem source trunks t e in (r.0, inl r.1)
    found (some u) at e = trunk_by_acl-LetsIn source trunks acls t (at ∙ e)
