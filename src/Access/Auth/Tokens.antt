-- ===== src/Access/Auth/Tokens.antt =====
-- The tokens of gateway/auth.go.
use voiceagent.Base.{
  ◌≡◌, ◌∙◌, ap, ℤ, ltb_ℤ, false, none, some, if◌then◌else◌, arith, Text, same_iff, same_refl, cut,
  Option-cases, inl, inr,
}
use voiceagent.Access.Hex.{hex_encode, hex_decode, IsBytes, hex_decode-hex_encode, cut-hex_encode}
use voiceagent.Access.Auth.{
  UserClaims, TokenCode, sign, generate_token, unexpired, validate_payload, validate_token,
}

-- A token made of claims whose JSON is bytes that read back as the claims is valid until the claims
-- expire, and gives these claims.
pub validate_token-generate_token :
    (tc : TokenCode) (now : ℤ) (claims : UserClaims)
    → tc.unmarshal (tc.marshal claims) ≡ some claims
    → IsBytes (tc.marshal claims)
    → validate_token tc now (generate_token tc claims)
      ≡ (if ltb_ℤ claims.exp now then none else some claims)
unfolding validate_token generate_token validate_payload sign unexpired
validate_token-generate_token tc now claims read bytes = ground (
  arith,
  cut-hex_encode (tc.marshal claims) (hex_encode (tc.mac (tc.marshal claims))),
  hex_decode-hex_encode (tc.marshal claims) bytes,
  same_refl (hex_encode (tc.mac (tc.marshal claims))),
  read,
)

-- The token is a text in hexadecimal digits and the signature of what these digits say, which reads as
-- claims that have not expired.
unfoldable pub Signed : TokenCode → ℤ → Text → UserClaims → Type 0
unfolding sign
Signed tc now token claims =
    (digits payload : Text) × ((cut 46 token ≡ some (digits, sign tc payload))
      × ((hex_decode digits ≡ some payload)
          × ((tc.unmarshal payload ≡ some claims) × (ltb_ℤ claims.exp now ≡ false))))

validate_payload-cases :
    (tc : TokenCode) (now : ℤ) (signature payload : Text) (claims : UserClaims)
    → validate_payload tc now signature payload ≡ some claims
    → (signature ≡ sign tc payload)
      × ((tc.unmarshal payload ≡ some claims) × (ltb_ℤ claims.exp now ≡ false))
unfolding validate_payload unexpired
validate_payload-cases tc now signature payload claims h =
    ground (arith, same_iff signature (sign tc payload))

pub validate_token-Signed :
    (tc : TokenCode) (now : ℤ) (token : Text) (claims : UserClaims)
    → validate_token tc now token ≡ some claims
    → Signed tc now token claims
unfolding validate_token Signed
validate_token-Signed tc now token claims h = elim (Option-cases (cut 46 token)) [
  | inl none_cut ↦ ground (arith, none_cut)
  | inr ((digits, signature), parts) ↦ elim (Option-cases (hex_decode digits)) [
    | inl bad ↦ ground (arith, parts, bad)
    | inr (payload, decoded) ↦
        let (s, (read, age)) =
          validate_payload-cases tc now signature payload claims (ground (arith, parts, decoded)) in
        (digits, payload, (parts ∙ ap (λ x. some (digits, x)) s, (decoded, (read, age))))
  ]
]
