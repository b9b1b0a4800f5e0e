-- ===== src/Users/Status/Laws.antt =====
-- The transitions of an account as a relation.
use skon_biztrip_web.Base.{◌≡◌, ◌↔◌, refl, arith}
use skon_biztrip_web.Enums.{UserStatus}
use skon_biztrip_web.Errors.{ok}
use skon_biztrip_web.Users.Status.{SignupActor, assert_signup_transition_allowed}

-- An administrator decides on a pending account, and a rejected applicant applies anew.
pub data Allowed : SignupActor → UserStatus → UserStatus → Type 0 where
  accept : Allowed SignupActor.admin UserStatus.pending UserStatus.active
  refuse : Allowed SignupActor.admin UserStatus.pending UserStatus.rejected
  apply_anew : Allowed SignupActor.applicant UserStatus.rejected UserStatus.pending

checked-Allowed :
    (current target : UserStatus) (actor : SignupActor)
    → assert_signup_transition_allowed current target actor ≡ ok tt
    → Allowed actor current target
unfolding assert_signup_transition_allowed
checked-Allowed UserStatus.pending UserStatus.active SignupActor.admin h = accept
checked-Allowed UserStatus.pending UserStatus.rejected SignupActor.admin h = refuse
checked-Allowed UserStatus.rejected UserStatus.pending SignupActor.applicant h = apply_anew
checked-Allowed _ _ _ h = absurd (ground arith)

Allowed-checked :
    {current target : UserStatus} {actor : SignupActor}
    → Allowed actor current target
    → assert_signup_transition_allowed current target actor ≡ ok tt
unfolding assert_signup_transition_allowed
Allowed-checked accept = refl
Allowed-checked refuse = refl
Allowed-checked apply_anew = refl

-- An account goes from one state to another exactly as follows: an administrator accepts or refuses a
-- pending one, and the applicant of a refused one applies anew; an active account stays so.
pub assert_signup_transition_allowed-Allowed :
    (current target : UserStatus) (actor : SignupActor)
    → (assert_signup_transition_allowed current target actor ≡ ok tt) ↔ Allowed actor current target
assert_signup_transition_allowed-Allowed current target actor =
    (checked-Allowed current target actor, Allowed-checked)
