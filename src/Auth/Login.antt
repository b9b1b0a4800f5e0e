-- ===== src/Auth/Login.antt =====
-- The log-in (backend/app/routers/auth.py, backend/app/security.py). The check of a password, which is
-- bcrypt's, and the encoding of a token, which is PyJWT's, are parameters.
pub mod Laws
use skon_biztrip_web.Base.{
  ℕ, String, ◌+◌, ◌*◌, Bool, true, false, Option, none, some, decimal, map, List, sort_by,
}
use skon_biztrip_web.Enums.{UserRole, UserStatus}
use skon_biztrip_web.Errors.{Result, ok, err, auth_error, unexpected}
use skon_biztrip_web.Db.Table.{get}
use skon_biztrip_web.Db.Rows.{Department, User, department_entity}
use skon_biztrip_web.Db.Session.{Db, Service, pure, lift, query, try_query, ◌>>=◌, ◌>>◌}
use skon_biztrip_web.Users.Signup.{by_email}

pub record LoginRequest : Type 0 where
  pub email : String
  pub password : String

pub record UserOut : Type 0 where
  pub id : ℕ
  pub email : String
  pub name : String
  pub employee_no : String
  pub position_code : String
  pub role : UserRole
  pub department_id : ℕ
  pub department_name : String
  pub manager_id : Option ℕ

pub record LoginResponse : Type 0 where
  pub access_token : String
  pub user : UserOut

-- A field of a response that may not be None.
abbrev pub required_field : Option String → Result String
required_field none = err (unexpected "ValidationError")
required_field (some text) = ok text

-- `department.name if department else ""`
abbrev pub department_name : Option Department → String
department_name none = ""
department_name (some department) = department.name

abbrev pub user_out_of : User → Option Department → String → String → UserOut
user_out_of user department employee_no position_code = record {
  id = user.id;
  email = user.email;
  name = user.name;
  employee_no = employee_no;
  position_code = position_code;
  role = user.role;
  department_id = user.department_id;
  department_name = department_name department;
  manager_id = user.manager_id;
}

-- `_to_user_out`, which the endpoint `me` returns too.
unfoldable pub to_user_out : User → Service UserOut
to_user_out user = do
  department ← query (λ db. get user.department_id db.departments)
  employee_no ← lift (required_field user.employee_no)
  position_code ← lift (required_field user.position_code)
  pure (user_out_of user department employee_no position_code)

-- An hour of `timedelta`, in microseconds.
abbrev pub hour : ℕ
hour = 3600000000

-- A second, of which PyJWT keeps whole ones of the expiry that it is given.
abbrev pub second : ℕ
second = 1000000

abbrev pub invalid_credentials : {A : Type 0} → Result A
invalid_credentials = err (auth_error "INVALID_CREDENTIALS" none)

-- The hash that the password is compared with, of nobody's password where there is no such account.
abbrev pub stored_hash : String → Option User → String
stored_hash dummy none = dummy
stored_hash dummy (some user) = user.password_hash

-- `user is None or not password_ok`
abbrev pub known_user : Option User → Bool → Result User
known_user none password_ok = invalid_credentials
known_user (some user) false = invalid_credentials
known_user (some user) true = ok user

-- The refusals that only somebody with the password sees.
abbrev pub admitted_user : User → UserStatus → Bool → Result (Unit {0})
admitted_user user UserStatus.pending is_active = err (auth_error "PENDING_APPROVAL" none)
admitted_user user UserStatus.rejected is_active = err (auth_error "SIGNUP_REJECTED" none)
admitted_user user UserStatus.active false = invalid_credentials
admitted_user user UserStatus.active true = ok tt

-- `jwt_encode` gets the subject and the expiry, a datetime with its microseconds; `expire_hours` is a
-- setting.
unfoldable pub create_access_token : (String → ℕ → String) → ℕ → ℕ → ℕ → String
unfolding decimal
create_access_token jwt_encode expire_hours now user_id =
    jwt_encode (decimal user_id) (now + expire_hours * hour)

module _ (verify_password : String → String → Bool) (dummy_hash : String)
    (jwt_encode : String → ℕ → String) (expire_hours : ℕ) where
  unfoldable pub login : ℕ → LoginRequest → Service LoginResponse
  login now payload = do
    found ← query (by_email payload.email)
    let password_ok = verify_password payload.password (stored_hash dummy_hash found)
    user ← lift (known_user found password_ok)
    lift (admitted_user user user.status user.is_active)
    out ← to_user_out user
    pure (record {
      access_token = create_access_token jwt_encode expire_hours now user.id;
      user = out;
    })

pub record PublicDepartment : Type 0 where
  pub id : ℕ
  pub name : String

-- `list_public_departments`; `collate` is the order of texts of the database.
unfoldable pub list_public_departments : (String → String → Bool) → Service (List PublicDepartment)
list_public_departments collate = query λ db.
    map (λ (d : Department). record { id = d.id; name = d.name })
      (sort_by (λ (a b : Department). collate a.code b.code) db.departments.rows)
