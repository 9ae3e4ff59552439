-- ===== src/Security.antt =====
-- app/core/security.py: roles, access tokens, and who may call what. PyJWT is a parameter: `encode`
-- signs claims with a key, and `decode` checks a token's signature by a key, its times, and its
-- audience and issuer, and gives the claims.
pub mod Trusted
use Prim.Native.String.{count}
use sre_blackboard.Common.{
  ℕ, ◌+◌, String, Bool, true, false, not, ◌||◌, ◌&&◌, Option, none, some, List, [], ◌∷◌, all, any,
  keep, leb, ltb, str_eq, if◌then◌else◌,
}
use sre_blackboard.Llm.Json.{
  Json, number, text, array, Items, end, item, Fields, done, field, get_field,
}

pub record JwtSettings : Type 0 where
  pub jwt_secret : Option String
  pub jwt_issuer : String
  pub jwt_audience : String

-- The keyword arguments of jwt.decode.
pub record DecodeOptions : Type 0 where
  pub algorithms : List String
  pub audience : String
  pub issuer : String
  pub leeway : ℕ
  pub require : List String

-- `encode` takes claims, a key and an algorithm; `decode` a token, a key and the options. `show` is str
-- of an int, and `str` Python's str of any value.
pub record Jwt : Type 0 where
  pub encode : Fields → String → String → String
  pub decode : String → String → DecodeOptions → Option Fields
  pub show : ℕ → String
  pub str : Json → String

-- _ALGORITHM and _LEEWAY_S are here, and the claims that a token must have.
abbrev pub decode_options : JwtSettings → DecodeOptions
decode_options s = record {
  algorithms = "HS256" ∷ [];
  audience = s.jwt_audience;
  issuer = s.jwt_issuer;
  leeway = 30;
  require = "sub" ∷ "exp" ∷ "iss" ∷ "aud" ∷ [];
}

-- ROLE_RANK.get(role)
abbrev pub role_rank : String → Option ℕ
role_rank r =
    if str_eq r "viewer"
    then some 1
    else if str_eq r "responder"
    then some 2
    else if str_eq r "approver"
    then some 3
    else if str_eq r "admin"
    then some 4
    else none

-- role in SERVICE_ROLES
abbrev pub is_service : String → Bool
is_service r = str_eq r "ingest"

abbrev pub is_ranked : Option ℕ → Bool
is_ranked none = false
is_ranked (some n) = true

-- role in ALL_ROLES
unfoldable pub is_role : String → Bool
is_role r = is_ranked (role_rank r) || is_service r

-- The roles are a set.
pub record Principal : Type 0 where
  pub subject : String
  pub tenant_id : String
  pub roles : List String

abbrev pub rank_or_zero : Option ℕ → ℕ
rank_or_zero none = 0
rank_or_zero (some n) = n

abbrev pub has_rank : Option ℕ → List String → Option Bool
has_rank none roles = none
has_rank (some needed) roles = some (any (λ r. leb needed (rank_or_zero (role_rank r))) roles)

-- `Principal.has`; none: the KeyError of a role that does not exist.
unfoldable pub has : Principal → String → Option Bool
has p role =
    if is_service role then some (any (str_eq role) p.roles) else has_rank (role_rank role) p.roles

pub data AuthError : Type 0 where
  not_accepted no_tenant no_valid_roles : AuthError

-- The RuntimeError of a key that is missing or weak is `bad_secret`.
pub data Result (A : Type 0) : Type 0 where
  ok : A → Result A
  auth_error : AuthError → Result A
  bad_secret : Result A

-- `_secret`
abbrev pub secret_of : Option String → Option String
secret_of none = none
secret_of (some s) = if ltb (count s) 32 then none else some s

abbrev pub strings : List String → Items
strings [] = end
strings (r ∷ rs) = item (text r) (strings rs)

-- The claims that `mint_token` signs.
abbrev pub claims_of : Jwt → JwtSettings → String → String → List String → ℕ → ℕ → Fields
claims_of jwt s subject tenant roles now ttl = field "sub" (text subject) (
    field "tenant" (text tenant) (
      field "roles" (array (strings roles)) (
        field "iss" (text s.jwt_issuer) (
          field "aud" (text s.jwt_audience) (
            field "iat" (number (jwt.show now))
              (field "exp" (number (jwt.show (now + ttl))) done))))))

-- none: the ValueError of unknown roles, or the RuntimeError of `_secret`.
unfoldable pub mint_token :
    Jwt → JwtSettings → String → String → List String → ℕ → ℕ → Option String
mint_token jwt s subject tenant roles now ttl =
    if not (all is_role roles) then none else elim (secret_of s.jwt_secret) [
      | none ↦ none
      | some secret ↦
          some (jwt.encode (claims_of jwt s subject tenant roles now ttl) secret "HS256")
    ]

abbrev pub is_empty_text : String → Bool
is_empty_text String.[] = true
is_empty_text (String.◌∷◌ c s) = false

-- The tenant claim, if it is a text that is not empty.
abbrev pub tenant_of : Json → Option String
tenant_of (text t) = if is_empty_text t then none else some t
tenant_of _ = none

-- A list of nothing but texts.
abbrev pub texts : Items → Option (List String)
texts end = some []
texts (item (text t) rest) = elim (texts rest) [ none ↦ none | some ts ↦ some (t ∷ ts) ]
texts (item _ rest) = none

abbrev pub roles_of : Json → Option (List String)
roles_of (array items) = texts items
roles_of _ = none

abbrev pub subject_of : Jwt → Json → String
subject_of jwt (text t) = t
subject_of jwt j = jwt.str j

abbrev pub principal_of : Jwt → Fields → Option String → Option (List String) → Result Principal
principal_of jwt claims none roles = auth_error no_tenant
principal_of jwt claims (some tenant) none = auth_error no_valid_roles
principal_of jwt claims (some tenant) (some roles) = ok (record {
  subject = subject_of jwt (get_field "sub" claims);
  tenant_id = tenant;
  roles = keep is_role roles;
})

abbrev pub principal : Jwt → Option Fields → Result Principal
principal jwt none = auth_error not_accepted
principal jwt (some claims) =
    principal_of jwt claims (tenant_of (get_field "tenant" claims))
      (roles_of (get_field "roles" claims))

unfoldable pub decode_token : Jwt → JwtSettings → String → Result Principal
decode_token jwt s token = elim (secret_of s.jwt_secret) [
  | none ↦ bad_secret
  | some secret ↦ principal jwt (jwt.decode token secret (decode_options s))
]

-- What a protected endpoint answers before its own code runs.
pub data Access : Type 0 where
  granted : Principal → Access
  missing_token invalid_token forbidden server_error : Access

abbrev pub permit : String → Result Principal → Access
permit role (ok p) = elim (has p role) [
  | some true ↦ granted p
  | some false ↦ forbidden
  | none ↦ server_error
]
permit role (auth_error e) = invalid_token
permit role bad_secret = server_error

-- `authenticate` and then the dependency of `require`, for a request's bearer token, if any. For a
-- role that does not exist the source refuses to define the endpoint; here it answers server_error.
unfoldable pub access : Jwt → JwtSettings → String → Option String → Access
access jwt s role none = missing_token
access jwt s role (some token) = permit role (decode_token jwt s token)
