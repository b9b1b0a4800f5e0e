-- ===== src/Tests/Signup.antt =====
-- An application for an account, with a constant for a hash.
use skon_biztrip_web.Base.{String, ◌≡◌, refl, true, false, none, [], ◌∷◌}
use skon_biztrip_web.Errors.{is_ok}
use skon_biztrip_web.Enums.{UserStatus}
use skon_biztrip_web.Db.Table.{get}
use skon_biztrip_web.Db.Rows.{User}
use skon_biztrip_web.Db.Session.{Db, handle, ◌>>=◌}
use skon_biztrip_web.Users.Status.{assert_signup_transition_allowed}
use skon_biztrip_web.Users.Signup.{
  SignupRequest, signup, register, resubmit, assert_password_length, assert_department,
}
use skon_biztrip_web.Tests.Data.{company, minsu}

abbrev hashed : String → String
hashed password = "hash"

abbrev refused : User
refused = record minsu {
  id = 3;
  email = "hana@example.com";
  status = UserStatus.rejected;
  is_active = false;
}

abbrev office : Db
office = record company {
  departments = record {
    rows = record { id = 1; code = "D1"; name = "Sales"; parent_id = none } ∷ [];
    next_id = 2;
  };
  users = record { rows = minsu ∷ refused ∷ []; next_id = 4 };
}

abbrev anew : SignupRequest
anew = record {
  email = "hana@example.com";
  password = "long enough";
  name = "Hana";
  department_id = 1;
}

signup_test : is_ok (handle (signup hashed anew) office).0 ≡ true
unfolding handle ◌>>=◌ signup register resubmit assert_password_length assert_department get
    assert_signup_transition_allowed
signup_test = refl
