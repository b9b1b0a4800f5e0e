-- ===== src/Users/Status.antt =====
-- The states of an account and who may change them (backend/app/services/user_status.py).
pub mod Laws
use skon_biztrip_web.Base.{Bool, true, false, Option, none, some, List, [], ◌∷◌, any}
use skon_biztrip_web.Enums.{UserStatus}
use skon_biztrip_web.Errors.{Result, err, check, conflict_error, forbidden_error, unexpected, ◌>>◌}

pub data SignupActor : Type 0 where
  admin applicant : SignupActor

abbrev pub same_actor : SignupActor → SignupActor → Bool
same_actor SignupActor.admin SignupActor.admin = true
same_actor SignupActor.applicant SignupActor.applicant = true
same_actor _ _ = false

abbrev pub same_user_status : UserStatus → UserStatus → Bool
same_user_status UserStatus.pending UserStatus.pending = true
same_user_status UserStatus.active UserStatus.active = true
same_user_status UserStatus.rejected UserStatus.rejected = true
same_user_status _ _ = false

-- `SIGNUP_ALLOWED_TRANSITIONS`
unfoldable pub signup_allowed_transitions : UserStatus → List UserStatus
signup_allowed_transitions UserStatus.pending = UserStatus.active ∷ UserStatus.rejected ∷ []
signup_allowed_transitions UserStatus.rejected = UserStatus.pending ∷ []
signup_allowed_transitions UserStatus.active = []

-- `SIGNUP_TRANSITION_ACTOR`; `none` is a missing key.
unfoldable pub signup_transition_actor : UserStatus → UserStatus → Option SignupActor
signup_transition_actor UserStatus.pending UserStatus.active = some SignupActor.admin
signup_transition_actor UserStatus.pending UserStatus.rejected = some SignupActor.admin
signup_transition_actor UserStatus.rejected UserStatus.pending = some SignupActor.applicant
signup_transition_actor _ _ = none

-- `actor is not expected`
assert_signup_actor : Option SignupActor → SignupActor → Result (Unit {0})
assert_signup_actor none actor = err (unexpected "KeyError")
assert_signup_actor (some expected) actor =
    check (same_actor actor expected) (forbidden_error "WRONG_TRANSITION_ACTOR" none)

unfoldable pub assert_signup_transition_allowed :
    UserStatus → UserStatus → SignupActor → Result (Unit {0})
unfolding signup_allowed_transitions signup_transition_actor assert_signup_actor
assert_signup_transition_allowed current target actor = do
  check (any (same_user_status target) (signup_allowed_transitions current))
      (conflict_error "USER_INVALID_TRANSITION" none)
  assert_signup_actor (signup_transition_actor current target) actor
