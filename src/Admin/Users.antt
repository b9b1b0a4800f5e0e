-- ===== src/Admin/Users.antt =====
-- The administration of accounts (backend/app/services/admin/users.py). The hash of a password and the
-- database's comparisons of texts are parameters.
pub mod Values
pub mod Listing
pub mod Laws
pub mod Accounts
pub mod Opens
use skon_biztrip_web.Base.{
  ℕ, String, Bool, true, false, Option, none, some, List, [], ◌∷◌, map, ◌==◌, if◌then◌else◌,
}
use skon_biztrip_web.Enums.{UserRole, UserStatus}
use skon_biztrip_web.Errors.{Result, ok, err, validation_error, conflict_error, not_found_error}
use skon_biztrip_web.Patch.{Patch}
use skon_biztrip_web.Codes.{validate_codes}
use skon_biztrip_web.Db.Table.{get, put, insert}
use skon_biztrip_web.Db.Rows.{Department, User, department_entity, user_entity}
use skon_biztrip_web.Db.Session.{
  Db, Service, pure, lift, query, try_query, flush, commit, ◌>>=◌, ◌>>◌,
}
use skon_biztrip_web.Users.Status.{SignupActor, assert_signup_transition_allowed, same_user_status}
use skon_biztrip_web.Users.Signup.{assert_password_length, assert_department}
use skon_biztrip_web.Auth.Principal.{same_role}
use skon_biztrip_web.Auth.Login.{department_name}
use skon_biztrip_web.Admin.Common.{assert_unique}
use skon_biztrip_web.Admin.Users.Values.{
  AdminUserCreate, AdminUserUpdate, UserApprove, created_user, approved, rejected, patch_user,
  demotes, suspends,
}

pub record AdminUserOut : Type 0 where
  pub id : ℕ
  pub email : String
  pub name : String
  pub employee_no : Option String
  pub department_id : ℕ
  pub department_name : String
  pub position_code : Option String
  pub manager_id : Option ℕ
  pub manager_name : Option String
  pub role : UserRole
  pub status : UserStatus
  pub is_active : Bool

-- `names.get(id)`
abbrev pub name_of : Option User → Option String
name_of none = none
name_of (some user) = some user.name

-- `manager_names.get(user.manager_id) if user.manager_id else None`
abbrev pub manager_name : Option ℕ → Db → Option String
manager_name none db = none
manager_name (some manager_id) db =
    if manager_id == 0 then none else name_of (get manager_id db.users)

-- One element of `_to_out`.
unfoldable pub to_out : User → Db → AdminUserOut
to_out user db = record {
  id = user.id;
  email = user.email;
  name = user.name;
  employee_no = user.employee_no;
  department_id = user.department_id;
  department_name = department_name (get user.department_id db.departments);
  position_code = user.position_code;
  manager_id = user.manager_id;
  manager_name = manager_name user.manager_id db;
  role = user.role;
  status = user.status;
  is_active = user.is_active;
}

abbrev pub found_user : Option User → Result User
found_user none = err (not_found_error "USER_NOT_FOUND" none)
found_user (some user) = ok user

-- `_load`
unfoldable pub load_user : ℕ → Db → Result User
load_user user_id db = found_user (get user_id db.users)

unfoldable pub get_user : ℕ → Service AdminUserOut
get_user user_id = do user ← try_query (load_user user_id); query (to_out user)

-- `self_id is not None and manager_id == self_id`
abbrev pub is_self : ℕ → Option ℕ → Bool
is_self manager_id none = false
is_self manager_id (some self_id) = manager_id == self_id

abbrev pub existing_manager : Option User → Result (Unit {0})
existing_manager none = err (validation_error "INVALID_MANAGER" (some "manager_id"))
existing_manager (some user) = ok tt

-- `_assert_manager`
unfoldable pub assert_manager : Option ℕ → Option ℕ → Db → Result (Unit {0})
assert_manager none self_id db = ok tt
assert_manager (some manager_id) self_id db =
    if is_self manager_id self_id
    then err (validation_error "INVALID_MANAGER" (some "manager_id"))
    else existing_manager (get manager_id db.users)

abbrev pub assert_position : String → Db → Result (Unit {0})
assert_position position_code db =
    validate_codes (("POSITION", "position_code", some position_code) ∷ []) db

-- The column of the e-mails, and that of the numbers of employees, where null equals nothing.
abbrev pub emails : Db → List String
emails db = map (λ (u : User). u.email) db.users.rows

abbrev pub employee_nos_of : List User → List String
employee_nos_of [] = []
employee_nos_of (u ∷ users) =
    let rest = employee_nos_of users in elim u.employee_no [ none ↦ rest | some n ↦ n ∷ rest ]

abbrev pub assert_employee_no : String → Db → Result (Unit {0})
assert_employee_no employee_no db =
    assert_unique (employee_nos_of db.users.rows) employee_no "DUPLICATE_EMPLOYEE_NO" "employee_no"

-- The account, changed and flushed.
unfoldable pub save_user : User → Db → Db
save_user user db = record db { users = put user db.users }

-- The two refusals to a change of one's own account.
unfoldable pub assert_self_change : User → User → AdminUserUpdate → Result (Unit {0})
assert_self_change actor user payload =
    if user.id == actor.id
    then (if demotes payload.role
        then err (conflict_error "CANNOT_DEMOTE_SELF" (some "role"))
        else if suspends payload.is_active
        then err (conflict_error "CANNOT_DEMOTE_SELF" (some "is_active"))
        else ok tt)
    else ok tt

abbrev pub assert_new_department : Patch ℕ → Db → Result (Unit {0})
assert_new_department (Patch.value department_id) db = assert_department department_id db
assert_new_department Patch.null db = ok tt
assert_new_department Patch.unset db = ok tt

abbrev pub assert_new_manager : Patch ℕ → ℕ → Db → Result (Unit {0})
assert_new_manager (Patch.value manager_id) self_id db =
    assert_manager (some manager_id) (some self_id) db
assert_new_manager Patch.null self_id db = assert_manager none (some self_id) db
assert_new_manager Patch.unset self_id db = ok tt

abbrev pub assert_new_position : Patch String → Db → Result (Unit {0})
assert_new_position (Patch.value position_code) db = assert_position position_code db
assert_new_position Patch.null db = ok tt
assert_new_position Patch.unset db = ok tt

unfoldable pub update_user : User → ℕ → AdminUserUpdate → Service AdminUserOut
update_user actor user_id payload = do
  user ← try_query (load_user user_id)
  lift (assert_self_change actor user payload)
  try_query (assert_new_department payload.department_id)
  try_query (assert_new_manager payload.manager_id user.id)
  try_query (assert_new_position payload.position_code)
  saved ← lift (patch_user payload user)
  flush (save_user saved)
  commit
  query (to_out saved)

unfoldable pub approve_user : ℕ → UserApprove → Service AdminUserOut
approve_user user_id payload = do
  user ← try_query (load_user user_id)
  lift (assert_signup_transition_allowed user.status UserStatus.active SignupActor.admin)
  try_query (assert_employee_no payload.employee_no)
  try_query (assert_manager payload.manager_id (some user.id))
  try_query (assert_position payload.position_code)
  let saved = approved payload user
  flush (save_user saved)
  commit
  query (to_out saved)

unfoldable pub reject_user : ℕ → Service AdminUserOut
reject_user user_id = do
  user ← try_query (load_user user_id)
  lift (assert_signup_transition_allowed user.status UserStatus.rejected SignupActor.admin)
  let saved = rejected user
  flush (save_user saved)
  commit
  query (to_out saved)

module _ (hash_password : String → String) where
  unfoldable pub create_user : AdminUserCreate → Service AdminUserOut
  create_user payload = do
    lift (assert_password_length payload.password)
    try_query (λ db. assert_unique (emails db) payload.email "DUPLICATE_EMAIL" "email")
    try_query (assert_employee_no payload.employee_no)
    try_query (assert_department payload.department_id)
    try_query (assert_manager payload.manager_id none)
    try_query (assert_position payload.position_code)
    user ← query (λ db. created_user hash_password payload db.users.next_id)
    flush (λ db. record db { users = insert (created_user hash_password payload) db.users })
    commit
    query (to_out user)

  -- `payload.password` of a `PasswordSet`
  unfoldable pub set_password : ℕ → String → Service (Unit {0})
  set_password user_id password = do
    user ← try_query (load_user user_id)
    lift (assert_password_length password)
    flush (save_user (record user { password_hash = hash_password password }))
    commit
    pure tt
