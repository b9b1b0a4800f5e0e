-- ===== src/Admin/Centers.antt =====
-- The administration of fund and cost centres (backend/app/services/admin/centers.py). The database's
-- order of texts is a parameter.
pub mod Laws
use skon_biztrip_web.Base.{
  ℕ, String, Bool, true, false, Option, none, some, List, [], ◌∷◌, map, any, sort_by, str_eq,
  if◌then◌else◌,
}
use skon_biztrip_web.Errors.{Result, ok, err, validation_error, conflict_error, not_found_error}
use skon_biztrip_web.Patch.{Patch, merged, assigned, not_null}
use skon_biztrip_web.Db.Table.{Table, get, put, insert, delete}
use skon_biztrip_web.Db.Rows.{
  Department, Center, Trip, ExpenseReport, ExpenseItem, department_entity, center_entity,
}
use skon_biztrip_web.Db.Session.{
  Db, Service, pure, lift, query, try_query, flush, commit, ◌>>=◌, ◌>>◌,
}
use skon_biztrip_web.Admin.Common.{assert_unique, delete_entity}

-- `CenterModel`
pub data CenterModel : Type 0 where
  fund cost : CenterModel

-- The table of a model.
abbrev pub centers_of : CenterModel → Db → Table Center
centers_of CenterModel.fund db = db.fund_centers
centers_of CenterModel.cost db = db.cost_centers

abbrev pub with_centers : CenterModel → Table Center → Db → Db
with_centers CenterModel.fund centers db = record db { fund_centers = centers }
with_centers CenterModel.cost centers db = record db { cost_centers = centers }

pub record CenterCreate : Type 0 where
  pub code : String
  pub name : String
  pub department_id : Option ℕ
  pub is_active : Bool

pub record CenterUpdate : Type 0 where
  pub name : Patch String
  pub department_id : Patch ℕ
  pub is_active : Patch Bool

-- `AdminCenterOut` has the columns of the row.
abbrev pub AdminCenterOut : Type 0
AdminCenterOut = Center

unfoldable pub list_centers : (String → String → Bool) → CenterModel → Service (List AdminCenterOut)
list_centers collate model =
    query λ db. sort_by (λ (a b : Center). collate a.code b.code) (centers_of model db).rows

abbrev pub found_center : Option Center → Result Center
found_center none = err (not_found_error "CENTER_NOT_FOUND" none)
found_center (some center) = ok center

-- `_load`
unfoldable pub load_center : CenterModel → ℕ → Db → Result Center
load_center model center_id db = found_center (get center_id (centers_of model db))

abbrev pub existing_department : Option Department → Result (Unit {0})
existing_department none = err (validation_error "INVALID_DEPARTMENT" (some "department_id"))
existing_department (some department) = ok tt

-- `_assert_department`
unfoldable pub assert_department_if : Option ℕ → Db → Result (Unit {0})
assert_department_if none db = ok tt
assert_department_if (some department_id) db =
    existing_department (get department_id db.departments)

abbrev pub codes_of : CenterModel → Db → List String
codes_of model db = map (λ (c : Center). c.code) (centers_of model db).rows

abbrev pub new_center : CenterCreate → ℕ → Center
new_center payload id = record {
  id = id;
  code = payload.code;
  name = payload.name;
  department_id = payload.department_id;
  is_active = payload.is_active;
}

unfoldable pub create_center : CenterModel → CenterCreate → Service AdminCenterOut
create_center model payload = do
  try_query (λ db. assert_unique (codes_of model db) payload.code "DUPLICATE_CENTER_CODE" "code")
  try_query (assert_department_if payload.department_id)
  center ← query (λ db. new_center payload (centers_of model db).next_id)
  flush (λ db. with_centers model (insert (new_center payload) (centers_of model db)) db)
  commit
  pure center

abbrev pub assert_new_department : Patch ℕ → Db → Result (Unit {0})
assert_new_department (Patch.value department_id) db = assert_department_if (some department_id) db
assert_new_department Patch.null db = assert_department_if none db
assert_new_department Patch.unset db = ok tt

-- The assignments of an update, where neither the name nor the activity may become null.
abbrev pub with_values : Result String → Result Bool → Patch ℕ → Center → Result Center
with_values (err e) is_active department_id center = err e
with_values (ok name) (err e) department_id center = err e
with_values (ok name) (ok is_active) department_id center = ok (record center {
  name = name;
  department_id = assigned department_id center.department_id;
  is_active = is_active;
})

unfoldable pub patch_center : CenterUpdate → Center → Result Center
patch_center payload center =
    with_values (not_null (merged payload.name center.name))
      (not_null (merged payload.is_active center.is_active)) payload.department_id center

unfoldable pub update_center : CenterModel → ℕ → CenterUpdate → Service AdminCenterOut
update_center model center_id payload = do
  center ← try_query (load_center model center_id)
  try_query (assert_new_department payload.department_id)
  saved ← lift (patch_center payload center)
  flush (λ db. with_centers model (put saved (centers_of model db)) db)
  commit
  pure saved

-- `column == center.code`, where null equals nothing.
abbrev pub names : String → Option String → Bool
names code none = false
names code (some other) = str_eq other code

-- `_REFERENCES`, as the columns that may name the code.
unfoldable pub references : CenterModel → Db → List (List (Option String))
references CenterModel.cost db =
    map (λ (t : Trip). t.cost_center_code) db.trips.rows
    ∷ map (λ (r : ExpenseReport). r.cost_center_code) db.expense_reports.rows
    ∷ map (λ (i : ExpenseItem). i.cost_center_code) db.expense_items.rows
    ∷ []
references CenterModel.fund db =
    map (λ (r : ExpenseReport). r.fund_center_code) db.expense_reports.rows
    ∷ map (λ (i : ExpenseItem). i.fund_center_code) db.expense_items.rows
    ∷ []

-- The loop over the references.
abbrev pub assert_unnamed : String → List (List (Option String)) → Result (Unit {0})
assert_unnamed code [] = ok tt
assert_unnamed code (column ∷ columns) =
    let rest = assert_unnamed code columns in
    if any (names code) column then err (conflict_error "HAS_DEPENDENTS" none) else rest

-- No foreign key refers to a centre.
unfoldable pub delete_center : CenterModel → ℕ → Service (Unit {0})
delete_center model center_id = do
  center ← try_query (load_center model center_id)
  try_query (λ db. assert_unnamed center.code (references model db))
  delete_entity (λ db. false) (λ db. with_centers model (delete center.id (centers_of model db)) db)
