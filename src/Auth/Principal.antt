-- ===== src/Auth/Principal.antt =====
-- Who sends a request (backend/app/deps.py, backend/app/security.py). What the library PyJWT makes of a
-- token, and SHA-256, are parameters.
pub mod Granted
pub mod Laws
use skon_biztrip_web.Base.{
  ℕ, String, Bool, true, false, Option, none, some, List, [], ◌∷◌, any, str_eq, is_empty,
  starts_with, strip, lower, ◌==◌, if◌then◌else◌,
}
use Prim.Native.Char.{code}
use skon_biztrip_web.Enums.{UserRole, ApiKeyScope, scope_value}
use skon_biztrip_web.Errors.{Result, ok, err, auth_error, forbidden_error}
use skon_biztrip_web.Db.Table.{get}
use skon_biztrip_web.Db.Rows.{User, user_entity}
use skon_biztrip_web.Db.Session.{Db, Service, pure, lift, try_query, commit, ◌>>=◌, ◌>>◌}
use skon_biztrip_web.Auth.Scopes.{required_scope_for}
use skon_biztrip_web.Auth.Keys.{authenticate_key, active_owner}

-- What of a request the checks read; `path` is the path of the route that it was matched with.
pub record Request : Type 0 where
  pub method : String
  pub path : String
  pub api_key : Option String
  pub authorization : Option String

-- `request.state.scopes`
pub data Scopes : Type 0 where
  unrestricted : Scopes
  limited : List String → Scopes

-- `request.state.auth_method`
pub data AuthMethod : Type 0 where
  api_key jwt : AuthMethod

pub record Principal : Type 0 where
  pub user : User
  pub scopes : Scopes
  pub auth_method : AuthMethod

-- What comes of `jwt.decode` and the conversion of its subject.
pub data Claims : Type 0 where
  expired_signature unreadable : Claims
  subject : ℕ → Claims

abbrev pub subject_of : Claims → Result ℕ
subject_of Claims.expired_signature = err (auth_error "TOKEN_EXPIRED" none)
subject_of Claims.unreadable = err (auth_error "INVALID_TOKEN" none)
subject_of (Claims.subject user_id) = ok user_id

-- `text.split(" ", 1)[1]` of a text with a space.
abbrev pub after_space : String → String
after_space String.[] = ""
after_space (String.◌∷◌ c s) = let rest = after_space s in if code c == 32 then s else rest

-- The token of the header, or the refusal of its absence.
abbrev pub bearer_token : Option String → Result String
bearer_token none = err (auth_error "MISSING_CREDENTIALS" none)
bearer_token (some header) =
    if starts_with "bearer " (lower header)
    then ok (strip (after_space header))
    else err (auth_error "MISSING_CREDENTIALS" none)

abbrev pub valid_user : Option User → Result User
valid_user none = err (auth_error "INVALID_TOKEN" none)
valid_user (some user) = if user.is_active then ok user else err (auth_error "INVALID_TOKEN" none)

-- `str(required) not in scopes`
abbrev pub has_scope : ApiKeyScope → List String → Bool
has_scope required scopes = any (str_eq (scope_value required)) scopes

-- The end of `_enforce_scope`.
abbrev pub scope_granted : Scopes → Option ApiKeyScope → Result (Unit {0})
scope_granted Scopes.unrestricted required = ok tt
scope_granted (Scopes.limited scopes) none = ok tt
scope_granted (Scopes.limited scopes) (some required) =
    if has_scope required scopes then ok tt else err (forbidden_error "SCOPE_REQUIRED" none)

-- `_enforce_scope`
unfoldable pub enforce_scope : Request → Scopes → Result (Unit {0})
enforce_scope request scopes = elim (required_scope_for request.method request.path) [
  | err e ↦ err e
  | ok required ↦ scope_granted scopes required
]

-- The header of the key, where an empty one counts as none.
abbrev pub given_key : Option String → Option String
given_key none = none
given_key (some raw) = if is_empty raw then none else some raw

module _ (hash_key : String → String) where
  -- The branch of the key: its use is committed before anything else may fail.
  unfoldable pub key_principal : ℕ → String → Service Principal
  unfolding strip
  key_principal now raw = do
    found ← authenticate_key hash_key now (strip raw)
    commit
    pure (record {
      user = found.0;
      scopes = Scopes.limited found.1;
      auth_method = AuthMethod.api_key;
    })

module _ (jwt_decode : String → Claims) where
  unfoldable pub decode_access_token : String → Result ℕ
  decode_access_token token = subject_of (jwt_decode token)

  -- `_authenticate_jwt`
  unfoldable pub authenticate_jwt : Request → Service User
  unfolding strip lower
  authenticate_jwt request = do
    token ← lift (bearer_token request.authorization)
    user_id ← lift (decode_access_token token)
    try_query (λ db. valid_user (get user_id db.users))

  unfoldable pub jwt_principal : Request → Service Principal
  jwt_principal request = do
    user ← authenticate_jwt request
    pure (record { user = user; scopes = Scopes.unrestricted; auth_method = AuthMethod.jwt })

module _ (hash_key : String → String) (jwt_decode : String → Claims) where
  -- Which of the two headers counts: the key wins.
  unfoldable pub credentials : ℕ → Request → Service Principal
  credentials now request = elim (given_key request.api_key) [
    | some raw ↦ key_principal hash_key now raw
    | none ↦ jwt_principal jwt_decode request
  ]

  unfoldable pub get_principal : ℕ → Request → Service Principal
  get_principal now request = do
    principal ← credentials now request
    lift (enforce_scope request principal.scopes)
    pure principal

abbrev pub same_role : UserRole → UserRole → Bool
same_role UserRole.employee UserRole.employee = true
same_role UserRole.manager UserRole.manager = true
same_role UserRole.admin UserRole.admin = true
same_role _ _ = false

-- `require_role`
unfoldable pub require_role : List UserRole → Principal → Result (Unit {0})
require_role roles principal =
    if any (same_role principal.user.role) roles
    then ok tt
    else err (forbidden_error "FORBIDDEN_ROLE" none)

-- `get_jwt_principal`, and the test of `require_jwt_admin`
unfoldable pub require_jwt : Principal → Result (Unit {0})
require_jwt principal = elim principal.auth_method [
  | AuthMethod.jwt ↦ ok tt
  | AuthMethod.api_key ↦ err (forbidden_error "API_KEY_FORBIDDEN" none)
]

-- `require_jwt_admin` after `require_role(UserRole.ADMIN)`
unfoldable pub require_jwt_admin : Principal → Result (Unit {0})
require_jwt_admin principal = elim (require_role (UserRole.admin ∷ []) principal) [
  | err e ↦ err e
  | ok _ ↦ require_jwt principal
]
