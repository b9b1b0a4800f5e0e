-- ===== src/Admin/Users/Values.antt =====
-- The payloads of an account's administration and what they assign (backend/app/schemas/admin.py,
-- backend/app/services/admin/users.py).
use skon_biztrip_web.Base.{ℕ, String, Bool, true, false, Option, some}
use skon_biztrip_web.Enums.{UserRole, UserStatus}
use skon_biztrip_web.Errors.{Result, ok, ◌>>=◌}
use skon_biztrip_web.Patch.{Patch, merged, assigned, not_null}
use skon_biztrip_web.Db.Rows.{User}

pub record AdminUserCreate : Type 0 where
  pub email : String
  pub password : String
  pub name : String
  pub employee_no : String
  pub department_id : ℕ
  pub position_code : String
  pub manager_id : Option ℕ
  pub role : UserRole
  pub is_active : Bool

pub record AdminUserUpdate : Type 0 where
  pub name : Patch String
  pub department_id : Patch ℕ
  pub position_code : Patch String
  pub manager_id : Patch ℕ
  pub role : Patch UserRole
  pub is_active : Patch Bool

pub record UserApprove : Type 0 where
  pub employee_no : String
  pub position_code : String
  pub manager_id : Option ℕ
  pub role : UserRole

-- The new row, before its key is known; the model's default status is ACTIVE.
abbrev pub created_user : (String → String) → AdminUserCreate → ℕ → User
created_user hash_password payload id = record {
  id = id;
  email = payload.email;
  password_hash = hash_password payload.password;
  name = payload.name;
  employee_no = some payload.employee_no;
  department_id = payload.department_id;
  position_code = some payload.position_code;
  manager_id = payload.manager_id;
  role = payload.role;
  status = UserStatus.active;
  is_active = payload.is_active;
}

-- What `approve_user` assigns.
abbrev pub approved : UserApprove → User → User
approved payload user = record user {
  employee_no = some payload.employee_no;
  position_code = some payload.position_code;
  manager_id = payload.manager_id;
  role = payload.role;
  status = UserStatus.active;
  is_active = true;
}

-- What `reject_user` assigns.
abbrev pub rejected : User → User
rejected user = record user { status = UserStatus.rejected; is_active = false }

-- The assignments of an update and their flush: two columns may become null, no other.
unfoldable pub patch_user : AdminUserUpdate → User → Result User
patch_user payload user = do
  name ← not_null (merged payload.name user.name)
  department_id ← not_null (merged payload.department_id user.department_id)
  role ← not_null (merged payload.role user.role)
  is_active ← not_null (merged payload.is_active user.is_active)
  ok (record user {
    name = name;
    department_id = department_id;
    position_code = assigned payload.position_code user.position_code;
    manager_id = assigned payload.manager_id user.manager_id;
    role = role;
    is_active = is_active;
  })

-- `changes.get("role") not in (None, UserRole.ADMIN)`
abbrev pub demotes : Patch UserRole → Bool
demotes (Patch.value UserRole.employee) = true
demotes (Patch.value UserRole.manager) = true
demotes (Patch.value UserRole.admin) = false
demotes Patch.null = false
demotes Patch.unset = false

-- `changes.get("is_active") is False`
abbrev pub suspends : Patch Bool → Bool
suspends (Patch.value true) = false
suspends (Patch.value false) = true
suspends Patch.null = false
suspends Patch.unset = false
