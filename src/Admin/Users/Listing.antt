-- ===== src/Admin/Users/Listing.antt =====
-- The administrator's list of accounts (backend/app/services/admin/users.py). The database's ILIKE and
-- its order of the numbers of employees are parameters.
use skon_biztrip_web.Base.{
  ℕ, String, Bool, true, false, not, ◌&&◌, ◌||◌, Option, none, some, List, [], ◌∷◌, map, select,
  length, join, is_empty, sort_by, ◌==◌, if◌then◌else◌,
}
use skon_biztrip_web.Enums.{UserRole, UserStatus}
use skon_biztrip_web.Db.Rows.{User}
use skon_biztrip_web.Db.Session.{Db, Service, query}
use skon_biztrip_web.Page.{Page, slice}
use skon_biztrip_web.Users.Status.{same_user_status}
use skon_biztrip_web.Auth.Principal.{same_role}
use skon_biztrip_web.Admin.Users.{AdminUserOut, to_out}

pub record UserFilters : Type 0 where
  pub q : Option String
  pub department_id : Option ℕ
  pub role : Option UserRole
  pub is_active : Option Bool
  pub status : Option UserStatus
  pub page : ℕ
  pub size : ℕ

abbrev pub in_department : Option ℕ → User → Bool
in_department none user = true
in_department (some department_id) user = user.department_id == department_id

abbrev pub has_role : Option UserRole → User → Bool
has_role none user = true
has_role (some role) user = same_role role user.role

-- `User.is_active.is_(filters.is_active)`
abbrev pub has_access : Option Bool → User → Bool
has_access none user = true
has_access (some wanted) user = if wanted then user.is_active else not user.is_active

abbrev pub in_status : Option UserStatus → User → Bool
in_status none user = true
in_status (some status) user = same_user_status status user.status

module _ (ilike : String → String → Bool) where
  -- ILIKE on null is not true.
  abbrev pub numbered_like : Option String → String → Bool
  numbered_like none pattern = false
  numbered_like (some employee_no) pattern = ilike employee_no pattern

  abbrev pub mentions : Option String → User → Bool
  mentions none user = true
  mentions (some q) user =
      if is_empty q
      then true
      else ilike user.name (join ("%" ∷ q ∷ "%" ∷ []))
        || ilike user.email (join ("%" ∷ q ∷ "%" ∷ []))
        || numbered_like user.employee_no (join ("%" ∷ q ∷ "%" ∷ []))

  -- `collate` compares the numbers, where one may be null.
  unfoldable pub selected_users :
      (Option String → Option String → Bool) → UserFilters → Db → List User
  selected_users collate filters db =
      sort_by (λ (a b : User). collate a.employee_no b.employee_no)
        (select
          (λ (u : User).
            mentions filters.q u
            && in_department filters.department_id u
            && has_role filters.role u
            && has_access filters.is_active u
            && in_status filters.status u)
          db.users.rows)

  unfoldable pub list_users :
      (Option String → Option String → Bool) → UserFilters → Service (Page AdminUserOut)
  list_users collate filters = query λ db. record {
    items =
        map (λ (u : User). to_out u db)
          (slice filters.page filters.size (selected_users collate filters db));
    total = length (selected_users collate filters db);
    page = filters.page;
    size = filters.size;
  }
