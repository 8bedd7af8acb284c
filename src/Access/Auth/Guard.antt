-- ===== src/Access/Auth/Guard.antt =====
-- The middleware of gateway/auth.go before the handlers, and the user that the agents' handlers see.
use voiceagent.Base.{
  ◌≡◌, refl, ◌⊎◌, ℤ, pos, ◌+ℤ◌, ◌≤ℤ◌, false, Option, none, some, [], ◌∷◌, ◌++◌, arith, Text, lit,
  same_refl, is_empty, trim_prefix-append,
}
use voiceagent.Access.Hex.{hex_encode, IsBytes, hex_decode-hex_encode, cut-hex_encode}
use voiceagent.Access.Auth.{
  UserClaims, UserRow, sign, UserTable, TokenCode, AuthRequest, token_of, is_public, passes,
  key_claims, check_token, middleware, generate_token, handle_login, logged_in, credentials,
  claims_for, hash_password, payload_part, get_user_id_from_request,
}
use voiceagent.Access.Auth.Tokens.{Signed, validate_token-generate_token}

-- The claims are those of a row with the request's key, or those of a signed token of the request.
unfoldable pub Vouched : TokenCode → Option UserTable → ℤ → AuthRequest → UserClaims → Type 0
Vouched tc db now r claims =
    ((table : UserTable) × ((db ≡ some table)
        × (table.by_api_key r.api_key ≡ some (claims.username, claims.role))))
    ⊎ Signed tc now (token_of r) claims

abbrev pub bearer : Text → Text
bearer token = lit "Bearer " ++ token

token_of-bearer :
    (path key token query : Text)
    → token_of
        (record { path = path; api_key = key; authorization = bearer token; query_token = query })
      ≡ token
unfolding token_of
token_of-bearer path key token query = trim_prefix-append (lit "Bearer ") token

key_claims-without : (db : Option UserTable) → key_claims db [] ≡ none
unfolding key_claims
key_claims-without none = refl
key_claims-without (some table) = refl

token-not-empty : (payload rest : Text) → is_empty (hex_encode payload ++ 46 ∷ rest) ≡ false
unfolding hex_encode
token-not-empty [] rest = refl
token-not-empty (b ∷ payload) rest = refl

-- After a login that the password of the user's row admits, the token as a bearer passes the middleware
-- for 24 hours, with the row's claims, on every path that is not public, where the JSON of these claims
-- is bytes that read back as the claims.
pub middleware-handle_login :
    (tc : TokenCode) (sha : Text → Text) (db : Option UserTable) (env : Text) (now later : ℤ)
    (username password path query : Text) (row : UserRow)
    → is_empty username ≡ false
    → is_empty password ≡ false
    → credentials sha db username password ≡ some row
    → row.password_hash ≡ hash_password sha password
    → tc.unmarshal (tc.marshal (claims_for now username row)) ≡ some (claims_for now username row)
    → IsBytes (tc.marshal (claims_for now username row))
    → later ≤ℤ now +ℤ pos 86400
    → is_public path ≡ false
    → (token : Text) × ((handle_login tc sha db now (lit "POST") username password
          ≡ logged_in token username row.role)
        × (middleware tc db env later (record {
          path = path;
          api_key = [];
          authorization = bearer token;
          query_token = query;
        })
            ≡ passes (some (claims_for now username row))))
unfolding middleware check_token handle_login generate_token hash_password claims_for
middleware-handle_login tc sha db env now later username password path query row u p found hash read
      bytes age closed =
    let claims = claims_for now username row in
    let token = generate_token tc claims in
    let same_hash = same_refl (hash_password sha password) in
    (
      token,
      (
        ground (arith, same_refl (lit "POST"), u, p, found, hash, same_hash),
        ground (
          arith,
          closed,
          key_claims-without db,
          token_of-bearer path [] token query,
          validate_token-generate_token tc later claims read bytes,
          age,
          token-not-empty (tc.marshal claims) (sign tc (tc.marshal claims)),
        ),
      ),
    )

-- A request with an API key of the database passes, and getUserIDFromRequest takes for its user whatever
-- its bearer token says after the key was accepted: no signature is asked for.
pub get_user_id_from_request_forged :
    (tc : TokenCode) (table : UserTable) (env : Text) (now : ℤ)
    (path key query name role victim payload signature : Text)
    → is_public path ≡ false
    → is_empty key ≡ false
    → table.by_api_key key ≡ some (name, role)
    → tc.unmarshal_user_id payload ≡ some victim
    → IsBytes payload
    → let r : AuthRequest = record {
      path = path;
      api_key = key;
      authorization = bearer (hex_encode payload ++ 46 ∷ signature);
      query_token = query;
    } in
      (middleware tc (some table) env now r
        ≡ passes (some (record { user_id = []; username = name; role = role; exp = pos 0 })))
      × (get_user_id_from_request tc r ≡ victim)
unfolding middleware key_claims get_user_id_from_request payload_part
get_user_id_from_request_forged tc table env now path key query name role victim payload signature
      closed has_key row says bytes =
    let token = hex_encode payload ++ 46 ∷ signature in
    (
      ground (arith, closed, has_key, row),
      ground (
        arith,
        token_of-bearer path key token query,
        token-not-empty payload signature,
        cut-hex_encode payload signature,
        hex_decode-hex_encode payload bytes,
        says,
      ),
    )
