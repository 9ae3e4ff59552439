-- ===== src/Security/Trusted.antt =====
-- Whom the API lets in, and that the tokens it mints are let in.
use Prim.Native.String.{count}
use sre_blackboard.Common.{
  ℕ, ◌≤◌, ◌≡◌, refl, sym, ap, subst, String, Bool, true, false, Option, none, some, List, [], ◌∷◌,
  all, keep, ltb, leb, str_eq, any, any-Among, Among, if◌then◌else◌, eq_iff, arith, Bool-cases,
  Option-cases, inl, inr,
}
use sre_blackboard.Remediation.Policy.{mem}
use sre_blackboard.Llm.Json.{Json, Fields, text, get_field}
use sre_blackboard.Security.{
  JwtSettings, Jwt, decode_options, role_rank, rank_or_zero, is_service, Principal, AuthError,
  Result, ok, auth_error, bad_secret, granted, is_role, has, secret_of, is_empty_text, tenant_of,
  roles_of, principal_of, decode_token, permit, access,
}

all-keep : (p : String → Bool) (xs : List String) → all p (keep p xs) ≡ true
all-keep p [] = refl
all-keep p (x ∷ xs) = elim (Bool-cases (p x)) [
  | inl e ↦ rw (e, e) (all-keep p xs)
  | inr e ↦ rw e (all-keep p xs)
]

secret_of-long :
    (o : Option String) (secret : String)
    → secret_of o ≡ some secret
    → (o ≡ some secret) × (32 ≤ count secret)
secret_of-long none secret h = absurd (ground arith)
secret_of-long (some s) secret h = elim (Bool-cases (ltb (count s) 32)) [
  | inl e ↦ absurd (ground arith)
  | inr e ↦
      let same : s ≡ secret = ground arith in
      (ap (λ x. some x) same, subst (λ x. 32 ≤ count x) same (ground arith))
]

tenant_of-text :
    (j : Json) (t : String) → tenant_of j ≡ some t → (j ≡ text t) × (is_empty_text t ≡ false)
tenant_of-text (text s) t h = elim (Bool-cases (is_empty_text s)) [
  | inl e ↦ absurd (ground arith)
  | inr e ↦
      let same : s ≡ t = ground arith in
      (ap (λ x. text x) same, subst (λ x. is_empty_text x ≡ false) same e)
]
tenant_of-text Json.null t h = absurd (ground arith)
tenant_of-text (Json.boolean b) t h = absurd (ground arith)
tenant_of-text (Json.number n) t h = absurd (ground arith)
tenant_of-text (Json.array xs) t h = absurd (ground arith)
tenant_of-text (Json.object fs) t h = absurd (ground arith)

-- The roles that give a role: it and the higher ones, or itself for the service role.
abbrev pub giving : String → List String
giving role =
    if str_eq role "viewer"
    then "viewer" ∷ "responder" ∷ "approver" ∷ "admin" ∷ []
    else if str_eq role "responder"
    then "responder" ∷ "approver" ∷ "admin" ∷ []
    else if str_eq role "approver"
    then "approver" ∷ "admin" ∷ []
    else if str_eq role "admin"
    then "admin" ∷ []
    else if str_eq role "ingest"
    then "ingest" ∷ []
    else []

-- One of the roles gives the role.
abbrev pub Holds : List String → String → Type 0
Holds roles role = (r : String) × Among r roles × (mem r (giving role) ≡ true)

any-Holds :
    (role : String) (p : String → Bool) (roles : List String)
    → ((r : String) → p r ≡ true → mem r (giving role) ≡ true)
    → any p roles ≡ true
    → Holds roles role
any-Holds role p roles gives h = let (r, m, t) = any-Among p roles h in (r, m, gives r t)

rank-gives :
    (role r : String) (needed : ℕ)
    → is_service role ≡ false
    → role_rank role ≡ some needed
    → leb needed (rank_or_zero (role_rank r)) ≡ true
    → mem r (giving role) ≡ true
rank-gives role r needed human ranked high = ground arith

service-gives :
    (role r : String) → is_service role ≡ true → str_eq role r ≡ true → mem r (giving role) ≡ true
service-gives role r service same =
    let is : role ≡ "ingest" = (eq_iff role "ingest").0 service in
    subst (λ x. mem x (giving role) ≡ true) ((eq_iff role r).0 same)
      (subst (λ x. mem x (giving x) ≡ true) (sym is) refl)

has-Holds : (p : Principal) (role : String) → has p role ≡ some true → Holds p.roles role
unfolding has
has-Holds p role h = elim (Bool-cases (is_service role)) [
  | inl e ↦ any-Holds role (str_eq role) p.roles (λ r t. service-gives role r e t) (ground arith)
  | inr e ↦ elim (Option-cases (role_rank role)) [
    | inl f ↦ absurd (ground arith)
    | inr (n, f) ↦
        any-Holds role (λ r. leb n (rank_or_zero (role_rank r))) p.roles
          (λ r t. rank-gives role r n e f t) (ground arith)
  ]
]

-- What vouches for a principal that was let in.
pub record Trusted (jwt : Jwt) (s : JwtSettings) (role : String) (header : Option String)
    (p : Principal) : Type 0 where
  pub token : String
  pub secret : String
  pub claims : Fields
  pub presented : header ≡ some token
  pub configured : s.jwt_secret ≡ some secret
  pub strong : 32 ≤ count secret
  pub verified : jwt.decode token secret (decode_options s) ≡ some claims
  pub tenant : get_field "tenant" claims ≡ text p.tenant_id
  pub tenant_named : is_empty_text p.tenant_id ≡ false
  pub given : List String
  pub listed : roles_of (get_field "roles" claims) ≡ some given
  pub narrowed : p.roles ≡ keep is_role given
  pub known : all is_role p.roles ≡ true
  pub allowed : Holds p.roles role

permit-granted :
    (role : String) (r : Result Principal) (p : Principal)
    → permit role r ≡ granted p
    → (r ≡ ok p) × (has p role ≡ some true)
permit-granted role (auth_error e) p h = absurd (ground arith)
permit-granted role bad_secret p h = absurd (ground arith)
permit-granted role (ok q) p h = elim (Option-cases (has q role)) [
  | inl e ↦ absurd (ground arith)
  | inr (true, e) ↦
      let same : q ≡ p = ground arith in
      (ap (λ x. ok x) same, subst (λ x. has x role ≡ some true) same e)
  | inr (false, e) ↦ absurd (ground arith)
]

principal_of-ok :
    (jwt : Jwt) (claims : Fields) (t : Option String) (rs : Option (List String)) (p : Principal)
    → principal_of jwt claims t rs ≡ ok p
    → (t ≡ some p.tenant_id)
      × (given : List String) × (rs ≡ some given)
      × (p.roles ≡ keep is_role given)
principal_of-ok jwt claims none rs p h = absurd (ground arith)
principal_of-ok jwt claims (some t) none p h = absurd (ground arith)
principal_of-ok jwt claims (some t) (some given) p h = (ground arith, given, refl, ground arith)

-- The API runs an endpoint that requires a role only for a principal whose token was verified with a
-- configured key of at least 32 characters, by the expected audience and issuer; the tenant is the
-- one that the token names, and not empty; the roles are those of the token's list that exist; and
-- one of them is the role that is required or, of viewer, responder, approver and admin, a higher one.
pub access-Trusted :
    (jwt : Jwt) (s : JwtSettings) (role : String) (header : Option String) (p : Principal)
    → access jwt s role header ≡ granted p
    → Trusted jwt s role header p
unfolding access decode_token
access-Trusted jwt s role none p h = absurd (ground arith)
access-Trusted jwt s role (some token) p h =
    let (is, allowed) = permit-granted role (decode_token jwt s token) p h in
    elim (Option-cases (secret_of s.jwt_secret)) [
      | inl e ↦ let no : bad_secret ≡ ok p = rw (e, decode_token) at is in absurd (ground arith)
      | inr (secret, e) ↦ elim (Option-cases (jwt.decode token secret (decode_options s))) [
        | inl f ↦
            let no : auth_error AuthError.not_accepted ≡ ok p = rw (e, f, decode_token) at is in
            absurd (ground arith)
        | inr (claims, f) ↦
            let (configured, strong) = secret_of-long s.jwt_secret secret e in
            let (t, given, listed, narrowed) =
              principal_of-ok jwt claims (tenant_of (get_field "tenant" claims))
                (roles_of (get_field "roles" claims)) p (rw (e, f, decode_token) at is) in
            let (tenant, named) = tenant_of-text (get_field "tenant" claims) p.tenant_id t in
            record {
              token = token;
              secret = secret;
              claims = claims;
              presented = refl;
              configured = configured;
              strong = strong;
              verified = f;
              tenant = tenant;
              tenant_named = named;
              given = given;
              listed = listed;
              narrowed = narrowed;
              known = rw narrowed (all-keep is_role given);
              allowed = has-Holds p role allowed;
            }
      ]
    ]
