-- ===== src/Admin/Departments.antt =====
-- The administration of departments (backend/app/services/admin/departments.py). The database's order of
-- texts is a parameter.
pub mod Laws
use skon_biztrip_web.Base.{
  ℕ, String, Bool, true, false, not, ◌&&◌, ◌||◌, Option, none, some, List, map, any, select, length,
  sort_by, ◌==◌, if◌then◌else◌,
}
use skon_biztrip_web.Errors.{Result, ok, err, validation_error, conflict_error, not_found_error}
use skon_biztrip_web.Patch.{Patch, merged, assigned, not_null}
use skon_biztrip_web.Db.Table.{get, put, insert, delete}
use skon_biztrip_web.Db.Rows.{Department, User, Center, department_entity}
use skon_biztrip_web.Db.Session.{
  Db, Service, pure, lift, query, try_query, flush, commit, ◌>>=◌, ◌>>◌,
}
use skon_biztrip_web.Admin.Common.{assert_unique, delete_entity}
use skon_biztrip_web.Admin.Users.{is_self}

pub record DepartmentCreate : Type 0 where
  pub code : String
  pub name : String
  pub parent_id : Option ℕ

pub record DepartmentUpdate : Type 0 where
  pub name : Patch String
  pub parent_id : Patch ℕ

-- `DepartmentOut` has the columns of the row.
abbrev pub DepartmentOut : Type 0
DepartmentOut = Department

unfoldable pub list_departments : (String → String → Bool) → Service (List DepartmentOut)
list_departments collate =
    query λ db. sort_by (λ (a b : Department). collate a.code b.code) db.departments.rows

abbrev pub found_department : Option Department → Result Department
found_department none = err (not_found_error "DEPARTMENT_NOT_FOUND" none)
found_department (some department) = ok department

-- `_load`
unfoldable pub load_department : ℕ → Db → Result Department
load_department department_id db = found_department (get department_id db.departments)

abbrev pub existing_parent : Option Department → Result (Unit {0})
existing_parent none = err (validation_error "INVALID_PARENT" (some "parent_id"))
existing_parent (some department) = ok tt

-- `_assert_parent`
unfoldable pub assert_parent : Option ℕ → Option ℕ → Db → Result (Unit {0})
assert_parent none self_id db = ok tt
assert_parent (some parent_id) self_id db =
    if is_self parent_id self_id
    then err (validation_error "INVALID_PARENT" (some "parent_id"))
    else existing_parent (get parent_id db.departments)

abbrev pub codes_of : Db → List String
codes_of db = map (λ (d : Department). d.code) db.departments.rows

abbrev pub new_department : DepartmentCreate → ℕ → Department
new_department payload id = record {
  id = id;
  code = payload.code;
  name = payload.name;
  parent_id = payload.parent_id;
}

unfoldable pub create_department : DepartmentCreate → Service DepartmentOut
create_department payload = do
  try_query (λ db. assert_unique (codes_of db) payload.code "DUPLICATE_DEPARTMENT_CODE" "code")
  try_query (assert_parent payload.parent_id none)
  department ← query (λ db. new_department payload db.departments.next_id)
  flush (λ db. record db { departments = insert (new_department payload) db.departments })
  commit
  pure department

abbrev pub assert_new_parent : Patch ℕ → ℕ → Db → Result (Unit {0})
assert_new_parent (Patch.value parent_id) self_id db =
    assert_parent (some parent_id) (some self_id) db
assert_new_parent Patch.null self_id db = assert_parent none (some self_id) db
assert_new_parent Patch.unset self_id db = ok tt

-- The assignments of an update, where the name may not become null.
abbrev pub with_name : Result String → Patch ℕ → Department → Result Department
with_name (err e) parent_id department = err e
with_name (ok name) parent_id department =
    ok (record department { name = name; parent_id = assigned parent_id department.parent_id })

unfoldable pub patch_department : DepartmentUpdate → Department → Result Department
patch_department payload department =
    with_name (not_null (merged payload.name department.name)) payload.parent_id department

unfoldable pub update_department : ℕ → DepartmentUpdate → Service DepartmentOut
update_department department_id payload = do
  department ← try_query (load_department department_id)
  try_query (assert_new_parent payload.parent_id department.id)
  saved ← lift (patch_department payload department)
  flush (λ db. record db { departments = put saved db.departments })
  commit
  pure saved

-- The count of the users of the department, and the refusal where there are any.
unfoldable pub assert_no_users : ℕ → Db → Result (Unit {0})
assert_no_users department_id db =
    if length (select (λ (u : User). u.department_id == department_id) db.users.rows) == 0
    then ok tt
    else err (conflict_error "HAS_DEPENDENTS" none)

abbrev pub refers : ℕ → Option ℕ → Bool
refers department_id none = false
refers department_id (some other) = other == department_id

-- The foreign keys to a department: both kinds of centres, and the parents of other departments.
unfoldable pub is_referenced : ℕ → Db → Bool
is_referenced department_id db =
    any (λ (c : Center). refers department_id c.department_id) db.fund_centers.rows
    || any (λ (c : Center). refers department_id c.department_id) db.cost_centers.rows
    || any (λ (d : Department). not (d.id == department_id) && refers department_id d.parent_id)
        db.departments.rows

unfoldable pub delete_department : ℕ → Service (Unit {0})
delete_department department_id = do
  department ← try_query (load_department department_id)
  try_query (assert_no_users department_id)
  delete_entity (is_referenced department.id)
      (λ db. record db { departments = delete department.id db.departments })
