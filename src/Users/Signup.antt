-- ===== src/Users/Signup.antt =====
-- The application for an account (backend/app/services/signup.py). The hash of a password, which the
-- library bcrypt computes with a salt of its own, is a parameter.
pub mod Laws
use Prim.Native.Char.{code}
use skon_biztrip_web.Base.{
  ℕ, String, ◌+◌, Bool, true, false, Option, none, some, first, text_length, ltb, if◌then◌else◌,
  str_eq,
}
use skon_biztrip_web.Enums.{UserRole, UserStatus}
use skon_biztrip_web.Errors.{Result, ok, err, validation_error, conflict_error}
use skon_biztrip_web.Db.Table.{get, put, insert}
use skon_biztrip_web.Db.Rows.{Department, User, department_entity, user_entity}
use skon_biztrip_web.Db.Session.{
  Db, Service, pure, lift, query, try_query, flush, commit, ◌>>=◌, ◌>>◌,
}
use skon_biztrip_web.Users.Status.{SignupActor, assert_signup_transition_allowed}

pub record SignupRequest : Type 0 where
  pub email : String
  pub password : String
  pub name : String
  pub department_id : ℕ

-- The response without its message.
pub record SignupResponse : Type 0 where
  pub email : String
  pub status : UserStatus

-- `len(password.encode("utf-8"))`
abbrev pub utf8_length : String → ℕ
utf8_length String.[] = 0
utf8_length (String.◌∷◌ c s) =
    let rest = utf8_length s in
    if ltb (code c) 128
    then rest + 1
    else if ltb (code c) 2048
    then rest + 2
    else if ltb (code c) 65536
    then rest + 3
    else rest + 4

unfoldable pub assert_password_length : String → Result (Unit {0})
assert_password_length password =
    if ltb (text_length password) 8
    then err (validation_error "PASSWORD_TOO_SHORT" (some "password"))
    else if ltb 72 (utf8_length password)
    then err (validation_error "PASSWORD_TOO_LONG" (some "password"))
    else ok tt

unfoldable pub assert_department : ℕ → Db → Result (Unit {0})
assert_department department_id db = elim (get department_id db.departments) [
  | none ↦ err (validation_error "INVALID_DEPARTMENT" (some "department_id"))
  | some _ ↦ ok tt
]

abbrev pub by_email : String → Db → Option User
by_email email db = first (λ (u : User). str_eq u.email email) db.users.rows

-- The two refusals of `_resubmit` before its transition.
abbrev pub assert_refused : UserStatus → Result (Unit {0})
assert_refused UserStatus.pending = err (conflict_error "ALREADY_PENDING" (some "email"))
assert_refused UserStatus.active = err (conflict_error "DUPLICATE_EMAIL" (some "email"))
assert_refused UserStatus.rejected = ok tt

module _ (hash_password : String → String) where
  abbrev pub new_user : SignupRequest → ℕ → User
  new_user payload id = record {
    id = id;
    email = payload.email;
    password_hash = hash_password payload.password;
    name = payload.name;
    employee_no = none;
    department_id = payload.department_id;
    position_code = none;
    manager_id = none;
    role = UserRole.employee;
    status = UserStatus.pending;
    is_active = false;
  }

  -- What `_resubmit` assigns.
  abbrev pub as_resubmitted : SignupRequest → User → User
  as_resubmitted payload existing = record existing {
    name = payload.name;
    department_id = payload.department_id;
    password_hash = hash_password payload.password;
    status = UserStatus.pending;
    is_active = false;
  }

  unfoldable pub resubmit : User → SignupRequest → Service SignupResponse
  resubmit existing payload = do
    lift (assert_refused existing.status)
    lift (assert_signup_transition_allowed existing.status UserStatus.pending SignupActor.applicant)
    flush (λ db. record db { users = put (as_resubmitted payload existing) db.users })
    commit
    pure (record { email = existing.email; status = UserStatus.pending })

  -- The branches on `existing`. Where there is no such e-mail, its unique constraint cannot refuse.
  unfoldable pub register : Option User → SignupRequest → Service SignupResponse
  register none payload = do
    flush (λ db. record db { users = insert (new_user payload) db.users })
    commit
    pure (record { email = payload.email; status = UserStatus.pending })
  register (some existing) payload = resubmit existing payload

  unfoldable pub signup : SignupRequest → Service SignupResponse
  signup payload = do
    lift (assert_password_length payload.password)
    try_query (assert_department payload.department_id)
    existing ← query (by_email payload.email)
    register existing payload
