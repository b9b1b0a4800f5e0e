-- ===== src/Tests/Logins.antt =====
-- Runs of the log-in and of the check of a request; a password is its own hash.
use skon_biztrip_web.Base.{
  ℕ, ◌≡◌, refl, ◌<◌, Option, none, some, [], ◌∷◌, str_eq, arith, decimal, strip, lower, upper, ◌*◌,
  ◌/◌,
}
use mathlib.Core.Path.{subst}
use skon_biztrip_web.Base.Occurs.{Occurs}
use skon_biztrip_web.Errors.{ok}
use skon_biztrip_web.Enums.{UserRole, ApiKeyScope}
use skon_biztrip_web.Db.Table.{get, put}
use skon_biztrip_web.Db.Rows.{User, user_entity}
use skon_biztrip_web.Db.Session.{Db, handle, opened, ◌>>=◌}
use skon_biztrip_web.Db.Session.Ends.{Ensures}
use skon_biztrip_web.Users.Signup.{by_email}
use skon_biztrip_web.Auth.Scopes.{required_scope_for}
use skon_biztrip_web.Auth.Scopes.Table.{scope_requirements}
use skon_biztrip_web.Auth.Keys.{
  authenticate_key, assert_prefix, find_key, key_state, owner_of, save_key,
}
use skon_biztrip_web.Auth.Principal.{
  Request, Scopes, AuthMethod, Principal, Claims, get_principal, credentials, key_principal,
  enforce_scope, authenticate_jwt, bearer_token,
}
use skon_biztrip_web.Auth.Principal.Granted.{Permits}
use skon_biztrip_web.Auth.Principal.Laws.{Identified, get_principal-Identified}
use skon_biztrip_web.Auth.Login.{
  LoginRequest, LoginResponse, second, login, to_user_out, create_access_token,
}
use skon_biztrip_web.Auth.Login.Laws.{
  LoggedIn, login-LoggedIn, login-invalid_credentials, login-authenticate_jwt,
}
use skon_biztrip_web.Tests.Tokens.{encoded, decoded, decoded-encoded}
use skon_biztrip_web.Tests.Office.{staff, office, hashed}

abbrev by_agent : Request
by_agent = record {
  method = "GET";
  path = "/api/v1/trips";
  api_key = some " sk_live_abc ";
  authorization = none;
}

abbrev agent : Principal
agent = record {
  user = staff;
  scopes = Scopes.limited ("trips:read" ∷ []);
  auth_method = AuthMethod.api_key;
}

let_in : (get_principal hashed (decoded 9) 9 by_agent (opened office)).0 ≡ ok agent
unfolding ◌>>=◌ get_principal credentials key_principal enforce_scope authenticate_key assert_prefix
    find_key key_state owner_of save_key get put strip required_scope_for scope_requirements
let_in = refl

get_principal-Identified_example :
    Identified hashed (decoded 9) 9 by_agent office agent
    × ((required : Option ApiKeyScope) × Occurs
          (upper "GET", "/api/v1/trips", required)
          scope_requirements
        × Permits (Scopes.limited ("trips:read" ∷ [])) required)
get_principal-Identified_example =
    get_principal-Identified hashed (decoded 9) 9 by_agent office agent let_in

abbrev pub right : LoginRequest
right = record { email = "minsu@example.com"; password = "secret-1" }

abbrev wrong : LoginRequest
wrong = record { email = "minsu@example.com"; password = "secret-2" }

login-LoggedIn_example :
    Ensures office
      (LoggedIn str_eq "" encoded 1 5 right office)
      (handle (login str_eq "" encoded 1 5 right) office)
login-LoggedIn_example = login-LoggedIn str_eq "" encoded 1 5 right office

abbrev nobody : Db
nobody = record office { users = record { rows = []; next_id = 1 } }

login-invalid_credentials_example :
    (handle (login str_eq "" encoded 1 5 wrong) office).0
    ≡ (handle (login str_eq "" encoded 1 5 wrong) nobody).0
login-invalid_credentials_example =
    login-invalid_credentials str_eq "" encoded 1 5 wrong office nobody staff refl refl refl

abbrev welcome : LoginResponse
welcome = record {
  access_token = "h1";
  user = record {
    id = 1;
    email = "minsu@example.com";
    name = "Minsu";
    employee_no = "E1";
    position_code = "STAFF";
    role = UserRole.employee;
    department_id = 1;
    department_name = "Sales";
    manager_id = some 2;
  };
}

logged_in : handle (login str_eq "" encoded 1 5 right) office ≡ (ok welcome, office)
unfolding ◌>>=◌ handle login to_user_out create_access_token decimal get
logged_in = refl

abbrev with_token : Request
with_token = record {
  method = "GET";
  path = "/api/v1/trips";
  api_key = none;
  authorization = some "Bearer h1";
}

token_read : bearer_token (some "Bearer h1") ≡ ok "h1"
unfolding strip lower
token_read = refl

reads :
    (user : User) (expiry : ℕ)
    → by_email "minsu@example.com" office ≡ some user
    → 9 < expiry / second * second
    → decoded 9 (encoded (decimal user.id) expiry) ≡ Claims.subject user.id
unfolding decimal
reads user expiry found fresh =
    let same : staff ≡ user = ground arith in
    subst (λ (u : User). decoded 9 (encoded (decimal u.id) expiry) ≡ Claims.subject u.id) same
      (decoded-encoded 9 expiry fresh)

keyed :
    (user : User)
    → by_email "minsu@example.com" office ≡ some user
    → get user.id office.users ≡ some user
unfolding get
keyed user found = ground arith

login-authenticate_jwt_example :
    (user : User) × (by_email "minsu@example.com" office ≡ some user)
    × (1 ≡ user.id)
    × ((authenticate_jwt (decoded 9) with_token (opened office)).0 ≡ ok user)
login-authenticate_jwt_example =
    login-authenticate_jwt str_eq "" encoded decoded 1 5 right office welcome office 9 with_token
      reads keyed logged_in (ground arith) token_read
