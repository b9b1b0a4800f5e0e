-- ===== src/Tests/Masters.antt =====
-- Runs of the administration of master data.
use skon_biztrip_web.Base.{◌≡◌, refl, true, none, some, [], ◌∷◌, str_eq, sort_by}
use skon_biztrip_web.Errors.{err, is_ok, unexpected}
use skon_biztrip_web.Patch.{Patch, merged}
use skon_biztrip_web.Db.Table.{get, put}
use skon_biztrip_web.Db.Session.{Db, handle, ◌>>=◌}
use skon_biztrip_web.Db.Session.Ends.{Ensures}
use skon_biztrip_web.Admin.Common.{delete_entity}
use skon_biztrip_web.Admin.Departments.{
  delete_department, load_department, assert_no_users, is_referenced,
}
use skon_biztrip_web.Admin.Departments.Laws.{Deleted, delete_department-Deleted}
use skon_biztrip_web.Admin.Codes.{update_code, load_code}
use skon_biztrip_web.Admin.Codes.Values.{CodeUpdate, patch_code}
use skon_biztrip_web.Codes.Listing.{load_code_groups, to_group_out}
use skon_biztrip_web.Tests.Office.{office}

abbrev two_departments : Db
two_departments = record office {
  departments = record {
    rows =
        record { id = 1; code = "D1"; name = "Sales"; parent_id = none }
        ∷ record { id = 2; code = "D2"; name = "Lab"; parent_id = some 1 }
        ∷ [];
    next_id = 3;
  };
}

delete_department-Deleted_example :
    Ensures two_departments
      (Deleted 2 two_departments)
      (handle (delete_department 2) two_departments)
delete_department-Deleted_example = delete_department-Deleted 2 two_departments

delete_department_test : is_ok (handle (delete_department 2) two_departments).0 ≡ true
unfolding handle ◌>>=◌ delete_department delete_entity load_department assert_no_users is_referenced
    get
delete_department_test = refl

abbrev null_extra : CodeUpdate
null_extra = record {
  name = Patch.unset;
  sort_order = Patch.unset;
  is_active = Patch.unset;
  extra = Patch.null;
}

-- The null is stored although the request fails, and the list of codes fails from then on.
null_extra_test :
    load_code_groups str_eq (handle (update_code 1 null_extra) office).1
    ≡ err (unexpected "ValidationError")
unfolding handle ◌>>=◌ update_code load_code patch_code get put load_code_groups to_group_out
    sort_by merged
null_extra_test = refl
