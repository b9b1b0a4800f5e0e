-- ===== src/Admin/Departments/Laws.antt =====
-- What a deletion of a department leaves.
use skon_biztrip_web.Base.{
  ℕ, ◌≡◌, refl, Bool, true, false, none, some, List, [], ◌∷◌, any, select, length, arith, ◌==◌,
  if◌then◌else◌, sym, ap, ◌∙◌,
}
use skon_biztrip_web.Errors.{Result, ok, err, conflict_error}
use skon_biztrip_web.Db.Table.{get, delete}
use skon_biztrip_web.Db.Table.Laws.{get-ident}
use skon_biztrip_web.Db.Rows.{Department, User, department_entity}
use skon_biztrip_web.Db.Session.{Db, handle}
use skon_biztrip_web.Db.Session.Ends.{
  Ensures, Ends-handle, Ends-pure, Ends-try_flush, Ends-commit, Ends-try_query,
}
use skon_biztrip_web.Admin.Common.{delete_entity}
use skon_biztrip_web.Admin.Departments.{
  load_department, assert_no_users, is_referenced, delete_department,
}

load_department-ok :
    (department_id : ℕ) (db : Db) (d : Department)
    → load_department department_id db ≡ ok d
    → get department_id db.departments ≡ some d
unfolding load_department
load_department-ok department_id db d h = ground arith

none_selected :
    (department_id : ℕ) (users : List User)
    → (length (select (λ (u : User). u.department_id == department_id) users) == 0) ≡ true
    → any (λ (u : User). u.department_id == department_id) users ≡ false
none_selected department_id [] h = refl
none_selected department_id (u ∷ users) h = ground (arith, none_selected department_id users)

no_users_left :
    (department_id : ℕ) (db : Db)
    → assert_no_users department_id db ≡ ok tt
    → any (λ (u : User). u.department_id == department_id) db.users.rows ≡ false
unfolding assert_no_users
no_users_left department_id db h = none_selected department_id db.users.rows (ground arith)

unreferenced :
    (referenced : Bool) (db db' : Db) (e : Result Db)
    → (if referenced then e else ok db) ≡ ok db'
    → e ≡ err (conflict_error "HAS_DEPENDENTS" none)
    → (referenced ≡ false) × (db' ≡ db)
unreferenced referenced db db' e h refused = ground arith

-- The department was there, no user, centre or other department named it, and it is all that is gone.
abbrev pub Deleted : ℕ → Db → Unit {0} → Db → Type 0
Deleted department_id db done db' =
    (d : Department) × (get department_id db.departments ≡ some d)
    × (any (λ (u : User). u.department_id == department_id) db.users.rows ≡ false)
    × (is_referenced department_id db ≡ false)
    × (db' ≡ record db { departments = delete department_id db.departments })

-- A department is deleted only where no account, no centre and no other department names it, so no
-- reference is left without its department; or an error is raised and nothing changes.
pub delete_department-Deleted :
    (department_id : ℕ) (db : Db)
    → Ensures db (Deleted department_id db) (handle (delete_department department_id) db)
unfolding delete_department delete_entity
delete_department-Deleted department_id db = Ends-handle _ (
    Ends-try_query _ _ _ refl λ d loaded. Ends-try_query _ _ _ refl λ _ unused.
      Ends-try_flush _ _ _ refl λ mid removed. Ends-commit _ _ (
        Ends-pure _ _ (
          let found = load_department-ok department_id db d loaded in
          let at_id = get-ident department_id db.departments d found in
          let (free, same) = unreferenced (is_referenced d.id db) _ mid _ removed refl in
          (
            d,
            found,
            no_users_left department_id db unused,
            sym (ap (λ (k : ℕ). is_referenced k db) at_id) ∙ free,
            same ∙ ap (λ (k : ℕ). record db { departments = delete k db.departments }) at_id,
          ))))
