-- ===== src/Access/Auth.antt =====
-- The tokens and the middleware of gateway/auth.go, and getUserIDFromRequest of
-- gateway/agent_session.go. HMAC-SHA256 with the secret, SHA-256, the JSON of the claims and the table
-- of users are arguments; a time is a number of seconds.
pub mod Tokens
pub mod Guard
mod Tests
use voiceagent.Base.{
  ℕ, ℤ, pos, ltb_ℤ, ◌+ℤ◌, ◌++◌, Bool, true, false, ◌&&◌, ◌||◌, not, List, [], ◌∷◌, Option, none,
  some, if◌then◌else◌, Text, lit, same, is_empty, has_prefix, trim_prefix, cut,
}
use voiceagent.Access.Hex.{hex_encode, hex_decode}

pub record UserClaims : Type 0 where
  pub user_id : Text
  pub username : Text
  pub role : Text
  pub exp : ℤ

-- `mac` is the HMAC with the secret of the handler; `unmarshal_user_id` reads only that field, the empty
-- text when it is absent.
pub record TokenCode : Type 0 where
  pub mac : Text → Text
  pub marshal : UserClaims → Text
  pub unmarshal : Text → Option UserClaims
  pub unmarshal_user_id : Text → Option Text

-- A row of the table as the login reads it.
pub record UserRow : Type 0 where
  pub id : Text
  pub password_hash : Text
  pub role : Text

-- The two queries; none is an error, that of no row included. By a key come the user's name and role.
pub record UserTable : Type 0 where
  pub by_name : Text → Option UserRow
  pub by_api_key : Text → Option (Text × Text)

-- A missing header or query parameter is the empty text.
pub record AuthRequest : Type 0 where
  pub path : Text
  pub api_key : Text
  pub authorization : Text
  pub query_token : Text

unfoldable pub sign : TokenCode → Text → Text
sign tc payload = hex_encode (tc.mac payload)

-- The payload and the signature around a dot, byte 46.
unfoldable pub generate_token : TokenCode → UserClaims → Text
unfolding sign
generate_token tc claims =
    let payload = tc.marshal claims in hex_encode payload ++ 46 ∷ sign tc payload

unfoldable pub unexpired : ℤ → UserClaims → Option UserClaims
unexpired now claims = if ltb_ℤ claims.exp now then none else some claims

-- The checks on a payload that was decoded.
unfoldable pub validate_payload : TokenCode → ℤ → Text → Text → Option UserClaims
unfolding sign unexpired
validate_payload tc now signature payload =
    if same signature (sign tc payload)
    then elim (tc.unmarshal payload) [ none ↦ none | some claims ↦ unexpired now claims ]
    else none

unfoldable pub validate_token : TokenCode → ℤ → Text → Option UserClaims
unfolding validate_payload
validate_token tc now token = elim (cut 46 token) [
  | none ↦ none
  | some (before, signature) ↦ elim (hex_decode before) [
    | none ↦ none
    | some payload ↦ validate_payload tc now signature payload
  ]
]

unfoldable pub is_public : Text → Bool
is_public path =
    same path (lit "/healthz")
    || (same path (lit "/metrics")
        || (same path (lit "/api/auth/login")
            || (same path (lit "/ws")
                || (same path (lit "/siprec")
                    || (same path (lit "/siprec/events")
                        || (has_prefix path (lit "/_next") || same path (lit "/favicon.ico")))))))

unfoldable pub token_of : AuthRequest → Text
token_of r =
    if is_empty r.authorization then r.query_token else trim_prefix r.authorization (lit "Bearer ")

-- The request goes on, with claims in its context or without, or is answered with a code.
pub data Passage : Type 0 where
  passes : Option UserClaims → Passage
  refused : ℕ → Passage

unfoldable pub key_claims : Option UserTable → Text → Option UserClaims
key_claims none key = none
key_claims (some table) key = if is_empty key then none else elim (table.by_api_key key) [
  | none ↦ none
  | some (name, role) ↦ some (record { user_id = []; username = name; role = role; exp = pos 0 })
]

unfoldable pub check_token : TokenCode → Text → ℤ → Text → Passage
check_token tc auth_enabled now token =
    if is_empty token
    then (if same auth_enabled (lit "true") then refused 401 else passes none)
    else elim (validate_token tc now token) [
      | none ↦ refused 401
      | some claims ↦ passes (some claims)
    ]

-- `auth_enabled` is the variable AUTH_ENABLED of the environment; without a database there is no table.
unfoldable pub middleware : TokenCode → Option UserTable → Text → ℤ → AuthRequest → Passage
middleware tc db auth_enabled now r =
    if is_public r.path then passes none else elim (key_claims db r.api_key) [
      | some claims ↦ passes (some claims)
      | none ↦ check_token tc auth_enabled now (token_of r)
    ]

pub data LoginAnswer : Type 0 where
  logged_in : Text → Text → Text → LoginAnswer
  login_failed : ℕ → LoginAnswer

unfoldable pub hash_password : (Text → Text) → Text → Text
hash_password sha password = hex_encode (sha (lit "voiceagent:" ++ password))

unfoldable pub credentials : (Text → Text) → Option UserTable → Text → Text → Option UserRow
unfolding hash_password
credentials sha (some table) username password = table.by_name username
credentials sha none username password =
    if same username (lit "admin") && same password (lit "admin")
    then some (record {
      id = lit "default";
      password_hash = hash_password sha (lit "admin");
      role = lit "admin";
    })
    else none

unfoldable pub claims_for : ℤ → Text → UserRow → UserClaims
claims_for now username row = record {
  user_id = row.id;
  username = username;
  role = row.role;
  exp = now +ℤ pos 86400;
}

unfoldable pub handle_login :
    TokenCode → (Text → Text) → Option UserTable → ℤ → Text → Text → Text → LoginAnswer
unfolding claims_for hash_password
handle_login tc sha db now method username password =
    if not (same method (lit "POST"))
    then login_failed 405
    else if is_empty username || is_empty password
    then login_failed 400
    else elim (credentials sha db username password) [
      | none ↦ login_failed 401
      | some row ↦
          if same (hash_password sha password) row.password_hash
          then logged_in (generate_token tc (claims_for now username row)) username row.role
          else login_failed 401
    ]

-- The part before the first dot, or all of a token without one; its signature is not looked at.
unfoldable pub payload_part : Text → Text
payload_part token = elim (cut 46 token) [ none ↦ token | some (before, rest) ↦ before ]

unfoldable pub get_user_id_from_request : TokenCode → AuthRequest → Text
get_user_id_from_request tc r =
    if is_empty (token_of r) then [] else elim (hex_decode (payload_part (token_of r))) [
      | none ↦ []
      | some payload ↦ elim (tc.unmarshal_user_id payload) [ none ↦ [] | some id ↦ id ]
    ]
