-- ===== src/Access/Auth/Tests.antt =====
-- A code of claims by the name of their user, one user, and requests with a token.
use voiceagent.Base.{
  ◌≡◌, refl, ℕ, ℤ, pos, Bool, false, Option, none, some, List, [], ◌∷◌, ◌++◌, Text, lit, same,
  arith, ltb_ℤ, if◌then◌else◌,
}
use voiceagent.Access.Hex.{hex_encode}
use voiceagent.Access.Auth.{
  UserClaims, UserRow, UserTable, TokenCode, AuthRequest, is_public, passes, middleware,
  validate_token, generate_token, handle_login, logged_in, hash_password, credentials, claims_for,
  get_user_id_from_request,
}
use voiceagent.Access.Auth.Guard.{bearer, middleware-handle_login, get_user_id_from_request_forged}

abbrev sum_of : Text → Text
sum_of payload = 7 ∷ []

abbrev admin_row : UserRow
admin_row = record {
  id = lit "default";
  password_hash = hash_password sum_of (lit "admin");
  role = lit "admin";
}

abbrev admin : UserClaims
admin = claims_for (pos 5) (lit "admin") admin_row

abbrev code_of : TokenCode
code_of = record {
  mac = sum_of;
  marshal = λ c. c.username;
  unmarshal = λ t. if same t (lit "admin") then some admin else none;
  unmarshal_user_id = λ t. some t;
}

abbrev team : UserTable
team = record {
  by_name = λ _. none;
  by_api_key = λ key. if same key (lit "va_1") then some (lit "ben", lit "viewer") else none;
}

abbrev by_key : AuthRequest
by_key = record {
  path = lit "/api/calls";
  api_key = lit "va_1";
  authorization = [];
  query_token = [];
}

abbrev ben : UserClaims
ben = record { user_id = []; username = lit "ben"; role = lit "viewer"; exp = pos 0 }

middleware-handle_login_example :
    (token : Text) × ((handle_login code_of sum_of none
          (pos 5)
          (lit "POST")
          (lit "admin")
          (lit "admin")
        ≡ logged_in token (lit "admin") (lit "admin"))
      × (middleware code_of none (lit "true") (pos 80000) (record {
        path = lit "/api/calls";
        api_key = [];
        authorization = bearer token;
        query_token = [];
      })
          ≡ passes (some admin)))
unfolding credentials claims_for is_public same voiceagent.Base.has_prefix voiceagent.Base.◌+ℤ◌
middleware-handle_login_example =
    middleware-handle_login code_of sum_of none (lit "true") (pos 5) (pos 80000) (lit "admin")
      (lit "admin") (lit "/api/calls") [] admin_row refl refl refl refl refl
      (omega arith, (omega arith, (omega arith, (omega arith, (omega arith, tt))))) (omega arith)
      refl

get_user_id_from_request_forged_example :
    let r : AuthRequest = record {
      path = lit "/api/agent/me";
      api_key = lit "va_1";
      authorization = bearer (hex_encode (lit "anna") ++ 46 ∷ []);
      query_token = [];
    } in
    (middleware code_of (some team) (lit "true") (pos 9) r ≡ passes (some ben))
    × (get_user_id_from_request code_of r ≡ lit "anna")
unfolding is_public same voiceagent.Base.has_prefix
get_user_id_from_request_forged_example =
    get_user_id_from_request_forged code_of team (lit "true") (pos 9) (lit "/api/agent/me")
      (lit "va_1") [] (lit "ben") (lit "viewer") (lit "anna") (lit "anna") [] refl refl refl refl
      (omega arith, (omega arith, (omega arith, (omega arith, tt))))
