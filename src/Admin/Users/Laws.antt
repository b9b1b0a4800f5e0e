-- ===== src/Admin/Users/Laws.antt =====
-- What the administration of an account does to the database.
use skon_biztrip_web.Base.{
  ℕ, String, ◌≡◌, ◌≢◌, refl, Bool, true, false, Option, none, some, List, any, str_eq, arith,
  Bool-cases, inl, inr, ◌==◌, sym, ap, ◌∙◌,
}
use skon_biztrip_web.Enums.{UserRole, UserStatus}
use skon_biztrip_web.Errors.{Result, ok, err}
use skon_biztrip_web.Patch.{Patch, merged, not_null}
use skon_biztrip_web.Db.Table.{get}
use skon_biztrip_web.Db.Table.Laws.{get-ident, get-put}
use skon_biztrip_web.Db.Rows.{User, user_entity}
use skon_biztrip_web.Db.Session.{Db, handle}
use skon_biztrip_web.Db.Session.Ends.{
  Ensures, Ends-handle, Ends-query, Ends-flush, Ends-commit, Ends-lift, Ends-try_query,
}
use skon_biztrip_web.Users.Status.{
  SignupActor, assert_signup_transition_allowed, signup_allowed_transitions,
}
use skon_biztrip_web.Admin.Common.{assert_unique}
use skon_biztrip_web.Admin.Users.Values.{
  AdminUserUpdate, UserApprove, approved, rejected, patch_user, demotes, suspends,
}
use skon_biztrip_web.Admin.Users.{
  AdminUserOut, load_user, to_out, existing_manager, assert_manager, assert_position,
  employee_nos_of, save_user, approve_user, reject_user, update_user, assert_self_change,
}

pub load_user-ok :
    (user_id : ℕ) (db : Db) (user : User)
    → load_user user_id db ≡ ok user
    → get user_id db.users ≡ some user
unfolding load_user
load_user-ok user_id db user h = ground arith

from_pending :
    (current target : UserStatus)
    → target ≢ UserStatus.pending
    → assert_signup_transition_allowed current target SignupActor.admin ≡ ok tt
    → current ≡ UserStatus.pending
unfolding assert_signup_transition_allowed signup_allowed_transitions
from_pending UserStatus.pending target other h = refl
from_pending UserStatus.active target other h = absurd (ground arith)
from_pending UserStatus.rejected target other h = absurd (ground arith)

assert_unique-new :
    (column : List String) (value code field : String)
    → assert_unique column value code field ≡ ok tt
    → any (str_eq value) column ≡ false
unfolding assert_unique
assert_unique-new column value code field h = ground arith

-- The approver is none, or another account that exists.
abbrev pub HasManager : Option ℕ → ℕ → Db → Type 0
HasManager none self_id db = Unit {0}
HasManager (some manager_id) self_id db =
    (manager_id ≢ self_id) × ((manager : User) × (get manager_id db.users ≡ some manager))

existing_manager-ok :
    (found : Option User)
    → existing_manager found ≡ ok tt
    → (manager : User) × (found ≡ some manager)
existing_manager-ok none h = absurd (ground arith)
existing_manager-ok (some user) h = (user, refl)

assert_manager-HasManager :
    (manager_id : Option ℕ) (self_id : ℕ) (db : Db)
    → assert_manager manager_id (some self_id) db ≡ ok tt
    → HasManager manager_id self_id db
unfolding assert_manager
assert_manager-HasManager none self_id db h = tt
assert_manager-HasManager (some manager_id) self_id db h =
    (λ e. ground arith, existing_manager-ok (get manager_id db.users) (ground arith))

-- The application was pending, the number of the employee is new, the approver is another account and
-- the position one of the codes; then the account is open, with what the administrator filled in.
abbrev pub Approved : ℕ → UserApprove → Db → AdminUserOut → Db → Type 0
Approved user_id payload db out db' =
    (user : User) × (get user_id db.users ≡ some user)
    × (user.status ≡ UserStatus.pending)
    × (any (str_eq payload.employee_no) (employee_nos_of db.users.rows) ≡ false)
    × HasManager payload.manager_id user.id db
    × (assert_position payload.position_code db ≡ ok tt)
    × (db' ≡ save_user (approved payload user) db)
    × (out ≡ to_out (approved payload user) db')

-- An approval opens a pending account, under a number that no employee has, and changes nothing else;
-- or it raises an error and changes nothing.
pub approve_user-Approved :
    (user_id : ℕ) (payload : UserApprove) (db : Db)
    → Ensures db (Approved user_id payload db) (handle (approve_user user_id payload) db)
unfolding approve_user
approve_user-Approved user_id payload db = Ends-handle _ (
    Ends-try_query _ _ _ refl λ user loaded. Ends-lift _ _ _ refl λ _ pending.
      Ends-try_query _ _ _ refl λ _ unique. Ends-try_query _ _ _ refl λ _ manager.
        Ends-try_query _ _ _ refl λ _ position. Ends-flush _ _ _ (
          Ends-commit _ _ (
            Ends-query _ _ (
              user,
              load_user-ok user_id db user loaded,
              from_pending user.status UserStatus.active (λ e. absurd (ground arith)) pending,
              assert_unique-new _ _ _ _ unique,
              assert_manager-HasManager payload.manager_id user.id db manager,
              position,
              refl,
              refl,
            ))))

-- A refusal keeps the row of the pending account, closed.
abbrev pub Rejected : ℕ → Db → AdminUserOut → Db → Type 0
Rejected user_id db out db' =
    (user : User) × (get user_id db.users ≡ some user)
    × (user.status ≡ UserStatus.pending)
    × (db' ≡ save_user (rejected user) db)

pub reject_user-Rejected :
    (user_id : ℕ) (db : Db) → Ensures db (Rejected user_id db) (handle (reject_user user_id) db)
unfolding reject_user
reject_user-Rejected user_id db = Ends-handle _ (
    Ends-try_query _ _ _ refl λ user loaded. Ends-lift _ _ _ refl λ _ pending. Ends-flush _ _ _ (
      Ends-commit _ _ (
        Ends-query _ _ (
          user,
          load_user-ok user_id db user loaded,
          from_pending user.status UserStatus.rejected (λ e. absurd (ground arith)) pending,
          refl,
        ))))

-- What becomes of an administrator who changes their own account.
keeps_role :
    (role : Patch UserRole) (new : UserRole)
    → demotes role ≡ false
    → not_null (merged role UserRole.admin) ≡ ok new
    → new ≡ UserRole.admin
unfolding merged
keeps_role (Patch.value UserRole.employee) new h m = absurd (ground arith)
keeps_role (Patch.value UserRole.manager) new h m = absurd (ground arith)
keeps_role (Patch.value UserRole.admin) new h m = ground arith
keeps_role Patch.null new h m = absurd (ground arith)
keeps_role Patch.unset new h m = ground arith

keeps_active :
    (is_active : Patch Bool) (new : Bool)
    → suspends is_active ≡ false
    → not_null (merged is_active true) ≡ ok new
    → new ≡ true
unfolding merged
keeps_active (Patch.value true) new h m = ground arith
keeps_active (Patch.value false) new h m = absurd (ground arith)
keeps_active Patch.null new h m = absurd (ground arith)
keeps_active Patch.unset new h m = ground arith

patch_user-ok :
    (payload : AdminUserUpdate) (user saved : User)
    → patch_user payload user ≡ ok saved
    → (saved.id ≡ user.id)
      × (not_null (merged payload.role user.role) ≡ ok saved.role)
      × (not_null (merged payload.is_active user.is_active) ≡ ok saved.is_active)
unfolding patch_user
patch_user-ok payload user saved h = ground arith

assert_self_change-ok :
    (actor user : User) (payload : AdminUserUpdate)
    → assert_self_change actor user payload ≡ ok tt
    → (user.id == actor.id) ≡ true
    → (demotes payload.role ≡ false) × (suspends payload.is_active ≡ false)
unfolding assert_self_change
assert_self_change-ok actor user payload h same = ground arith

-- The account under that key has the role of an administrator and is_active.
abbrev pub IsActiveAdmin : ℕ → Db → Type 0
IsActiveAdmin user_id db =
    (user : User) × (get user_id db.users ≡ some user)
    × (user.role ≡ UserRole.admin)
    × (user.is_active ≡ true)

module _ (actor user saved : User) (user_id : ℕ) (payload : AdminUserUpdate) (db : Db) where
  stays_admin :
      IsActiveAdmin actor.id db
      → get user_id db.users ≡ some user
      → assert_self_change actor user payload ≡ ok tt
      → patch_user payload user ≡ ok saved
      → IsActiveAdmin actor.id (save_user saved db)
  unfolding save_user
  stays_admin (admin, found, role, is_active) loaded allowed patched =
      let (same_id, new_role, new_active) = patch_user-ok payload user saved patched in
      let at_id = get-ident user_id db.users user loaded in
      let after = get-put actor.id saved db.users in
      elim (Bool-cases (user.id == actor.id)) [
        | inl same ↦
            let (kept, unsuspended) = assert_self_change-ok actor user payload allowed same in
            let is_user : admin ≡ user = ground arith in
            (
              saved,
              after ∙ ground arith,
              keeps_role payload.role saved.role kept (
                  sym (ap (λ (r : UserRole). not_null (merged payload.role r)) role)
                  ∙ ap (λ (u : User). not_null (merged payload.role u.role)) is_user
                  ∙ new_role),
              keeps_active payload.is_active saved.is_active unsuspended (
                  sym (ap (λ (b : Bool). not_null (merged payload.is_active b)) is_active)
                  ∙ ap (λ (u : User). not_null (merged payload.is_active u.is_active)) is_user
                  ∙ new_active),
            )
        | inr other ↦ (admin, after ∙ ground arith, role, is_active)
      ]

-- Where the acting user's own account is stored as that of an active administrator, its role is still
-- that of an administrator and its is_active still true after an update of any account.
pub update_user-IsActiveAdmin :
    (actor : User) (user_id : ℕ) (payload : AdminUserUpdate) (db : Db)
    → IsActiveAdmin actor.id db
    → IsActiveAdmin actor.id (handle (update_user actor user_id payload) db).1
unfolding update_user
update_user-IsActiveAdmin actor user_id payload db admin =
    afterwards (handle (update_user actor user_id payload) db) (
      Ends-handle _ (
        Ends-try_query _ _ _ refl λ user loaded. Ends-lift _ _ _ refl λ _ allowed.
          Ends-try_query _ _ _ refl λ _ _. Ends-try_query _ _ _ refl λ _ _.
            Ends-try_query _ _ _ refl λ _ _. Ends-lift _ _ _ refl λ saved patched.
              Ends-flush _ _ _ (
                Ends-commit _ _ (
                  Ends-query _ _ (
                    stays_admin actor user saved user_id payload db admin
                      (load_user-ok user_id db user loaded) allowed patched)))))
  where
    afterwards :
        (o : Result AdminUserOut × Db)
        → Ensures db (λ out db'. IsActiveAdmin actor.id db') o
        → IsActiveAdmin actor.id o.1
    afterwards (ok out, db') h = h
    afterwards (err e, db') h = rw h admin
