-- ===== src/Tests/Accounts.antt =====
-- Runs of the administration of accounts; a password is its own hash, and a token the subject that it
-- names.
use skon_biztrip_web.Base.{◌≡◌, refl, true, some, [], ◌∷◌, str_eq, arith}
use skon_biztrip_web.Errors.{ok, err, is_ok, unexpected}
use skon_biztrip_web.Enums.{UserStatus, UserRole}
use skon_biztrip_web.Patch.{Patch, merged}
use skon_biztrip_web.Codes.{validate_codes}
use skon_biztrip_web.Db.Table.{get, put}
use skon_biztrip_web.Db.Rows.{user_entity}
use skon_biztrip_web.Db.Session.{Db, handle, ◌>>=◌}
use skon_biztrip_web.Db.Session.Ends.{Ensures}
use skon_biztrip_web.Users.Status.{assert_signup_transition_allowed}
use skon_biztrip_web.Users.Signup.{by_email}
use skon_biztrip_web.Auth.Login.{login, to_user_out}
use skon_biztrip_web.Admin.Common.{assert_unique}
use skon_biztrip_web.Admin.Users.Values.{AdminUserUpdate, approved, patch_user}
use skon_biztrip_web.Admin.Users.{
  assert_self_change, AdminUserOut, approve_user, update_user, load_user, assert_manager, save_user,
  to_out,
}
use skon_biztrip_web.Admin.Users.Laws.{
  Approved, IsActiveAdmin, approve_user-Approved, update_user-IsActiveAdmin,
}
use skon_biztrip_web.Admin.Users.Accounts.{
  AccountRequest, AccountsAreConsistent, serve_account, serve_account-AccountsAreConsistent,
}
use skon_biztrip_web.Admin.Users.Opens.{approve_user-login}
use skon_biztrip_web.Tests.Office.{staff, boss, applicant, office, hashed, approval}
use skon_biztrip_web.Tests.Logins.{right}
use skon_biztrip_web.Tests.Tokens.{encoded}

approve_user-Approved_example :
    Ensures office (Approved 3 approval office) (handle (approve_user 3 approval) office)
approve_user-Approved_example = approve_user-Approved 3 approval office

abbrev demotion : AdminUserUpdate
demotion = record {
  name = Patch.unset;
  department_id = Patch.unset;
  position_code = Patch.unset;
  manager_id = Patch.unset;
  role = Patch.value UserRole.employee;
  is_active = Patch.unset;
}

boss_is_admin : IsActiveAdmin 2 office
unfolding get
boss_is_admin = (boss, refl, refl, refl)

update_user-IsActiveAdmin_example : IsActiveAdmin 2 (handle (update_user boss 2 demotion) office).1
update_user-IsActiveAdmin_example = update_user-IsActiveAdmin boss 2 demotion office boss_is_admin

consistent : AccountsAreConsistent office
consistent = ((λ h. refl), ((λ h. refl), ((λ h. absurd (ground arith)), tt)))

serve_account-AccountsAreConsistent_example :
    AccountsAreConsistent (serve_account hashed (AccountRequest.approve 3 approval) office)
serve_account-AccountsAreConsistent_example =
    serve_account-AccountsAreConsistent hashed (AccountRequest.approve 3 approval) office consistent

abbrev after_approval : Db
after_approval = record office {
  users = record { rows = staff ∷ boss ∷ approved approval applicant ∷ []; next_id = 4 };
}

abbrev approved_out : AdminUserOut
approved_out = record {
  id = 3;
  email = "hana@example.com";
  name = "Minsu";
  employee_no = some "E3";
  department_id = 1;
  department_name = "Sales";
  position_code = some "STAFF";
  manager_id = some 2;
  manager_name = some "Minsu";
  role = UserRole.employee;
  status = UserStatus.active;
  is_active = true;
}

approved_3 : handle (approve_user 3 approval) office ≡ (ok approved_out, after_approval)
unfolding ◌>>=◌ handle approve_user load_user assert_signup_transition_allowed assert_unique
    assert_manager validate_codes save_user to_out get put
approved_3 = refl

applicant_stored : get 3 office.users ≡ some applicant
unfolding get
applicant_stored = refl

applicant_found : by_email "hana@example.com" after_approval ≡ get 3 after_approval.users
unfolding get
applicant_found = refl

approve_user-login_example :
    is_ok
      (handle
        (login str_eq "" encoded 1 5 (record { email = "hana@example.com"; password = "secret-3" }))
        after_approval).0
    ≡ true
approve_user-login_example =
    approve_user-login str_eq "" encoded 1 5 3 approval "secret-3" applicant office approved_out
      after_approval applicant_stored approved_3 applicant_found refl

abbrev without_position : AdminUserUpdate
without_position = record {
  name = Patch.unset;
  department_id = Patch.unset;
  position_code = Patch.null;
  manager_id = Patch.unset;
  role = Patch.unset;
  is_active = Patch.unset;
}

-- The position of an open account may be set to null, and then its log-in fails.
without_position_test :
    (handle
      (login str_eq "" encoded 1 5 right)
      (handle (update_user boss 1 without_position) office).1).0
    ≡ err (unexpected "ValidationError")
unfolding ◌>>=◌ handle update_user load_user assert_self_change patch_user merged save_user login
    to_user_out get put
without_position_test = refl
