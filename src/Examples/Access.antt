-- ===== src/Examples/Access.antt =====
-- A small signer: a token is the key that signed it, and stands for one fixed set of claims.
use sre_blackboard.Common.{◌≡◌, refl, String, none, some, [], ◌∷◌, str_eq, if◌then◌else◌}
use sre_blackboard.Security.{
  JwtSettings, Jwt, Principal, claims_of, decode_token, access, granted, is_role, has,
}
use sre_blackboard.Llm.Json.{get_field}
use sre_blackboard.Security.Trusted.{Trusted, access-Trusted}

abbrev key : String
key = "0123456789abcdef0123456789abcdef"

abbrev jwt_settings : JwtSettings
jwt_settings = record {
  jwt_secret = some key;
  jwt_issuer = "sre-blackboard";
  jwt_audience = "sre-blackboard";
}

-- What the signer needs besides the two functions.
abbrev plain_jwt : Jwt
plain_jwt = record {
  encode = λ c secret algorithm. secret;
  decode = λ token secret options. none;
  show = λ n. "0";
  str = λ j. "";
}

abbrev key_jwt : Jwt
key_jwt = record plain_jwt {
  decode = λ token secret options.
      if str_eq secret token
      then some (claims_of plain_jwt jwt_settings "ann" "acme" ("approver" ∷ []) 1000 3600)
      else none;
}

abbrev ann : Principal
ann = record { subject = "ann"; tenant_id = "acme"; roles = "approver" ∷ [] }

lets_in : access key_jwt jwt_settings "responder" (some key) ≡ granted ann
unfolding access decode_token get_field is_role has
lets_in = refl

access-Trusted_example : Trusted key_jwt jwt_settings "responder" (some key) ann
access-Trusted_example = access-Trusted key_jwt jwt_settings "responder" (some key) ann lets_in
