-- ===== src/Tests/Office.antt =====
-- The accounts of the runs on keys, log-ins and administration: an employee, an administrator and an
-- applicant.
use skon_biztrip_web.Base.{pos, String, true, false, none, some, [], ◌∷◌}
use skon_biztrip_web.Enums.{UserRole, UserStatus}
use skon_biztrip_web.Db.Rows.{User, ApiKey}
use skon_biztrip_web.Db.Session.{Db}
use skon_biztrip_web.Auth.Keys.{ApiKeyCreate}
use skon_biztrip_web.Admin.Users.Values.{UserApprove}
use skon_biztrip_web.Tests.Data.{company, minsu}

abbrev pub staff : User
staff = record minsu {
  password_hash = "secret-1";
  employee_no = some "E1";
  position_code = some "STAFF";
}

abbrev pub boss : User
boss = record staff {
  id = 2;
  email = "boss@example.com";
  employee_no = some "E2";
  manager_id = none;
  role = UserRole.admin;
}

abbrev pub applicant : User
applicant = record minsu {
  id = 3;
  email = "hana@example.com";
  password_hash = "secret-3";
  status = UserStatus.pending;
  is_active = false;
}

abbrev pub issued : ApiKey
issued = record {
  id = 1;
  user_id = 1;
  name = "agent";
  key_prefix = "sk_live_abc";
  key_hash = "sk_live_abc";
  scopes = "trips:read" ∷ [];
  last_used_at = none;
  expires_at = none;
  revoked_at = none;
}

abbrev pub office : Db
office = record company {
  departments = record {
    rows = record { id = 1; code = "D1"; name = "Sales"; parent_id = none } ∷ [];
    next_id = 2;
  };
  users = record { rows = staff ∷ boss ∷ applicant ∷ []; next_id = 4 };
  code_groups = record {
    rows =
        record {
          id = 1;
          group_code = "POSITION";
          name = "Position";
          description = none;
          is_active = true;
        }
        ∷ [];
    next_id = 2;
  };
  codes = record {
    rows =
        record {
          id = 1;
          group_id = 1;
          code = "STAFF";
          name = "Staff";
          sort_order = pos 0;
          is_active = true;
          extra = "{}";
        }
        ∷ [];
    next_id = 2;
  };
  api_keys = record { rows = issued ∷ []; next_id = 2 };
}

-- For SHA-256 and bcrypt.
abbrev pub hashed : String → String
hashed text = text

abbrev pub agent_key : ApiKeyCreate
agent_key = record { name = "agent"; scopes = "trips:read" ∷ []; expires_in_days = none }

abbrev pub approval : UserApprove
approval = record {
  employee_no = "E3";
  position_code = "STAFF";
  manager_id = some 2;
  role = UserRole.employee;
}
