-- ===== src/Trip/Rules.antt =====
-- The rules of a trip that need no database (backend/app/services/trip_rules.py).
pub mod Laws
use skon_biztrip_web.Base.{
  ℕ, String, strip, is_empty, Bool, true, false, not, ◌||◌, Option, none, some, List, [], ◌∷◌, any,
  ltb, leb, ◌==◌, if◌then◌else◌,
}
use skon_biztrip_web.Enums.{TripStatus, UserRole, is_admin}
use skon_biztrip_web.Errors.{
  Result, ok, err, check, ◌>>◌, validation_error, forbidden_error, conflict_error, unexpected,
}
use skon_biztrip_web.Trip.Status.{same_status, assert_trip_transition}

abbrev pub editable_statuses : List TripStatus
editable_statuses = TripStatus.draft ∷ TripStatus.rejected ∷ []

abbrev pub deletable_statuses : List TripStatus
deletable_statuses = TripStatus.draft ∷ []

unfoldable pub assert_date_range : ℕ → ℕ → Result (Unit {0})
assert_date_range start_date end_date =
    check (not (ltb end_date start_date)) (validation_error "INVALID_DATE_RANGE" (some "end_date"))

-- `approver_id is not None and user_id == approver_id`
abbrev pub is_user : ℕ → Option ℕ → Bool
is_user user_id none = false
is_user user_id (some approver_id) = user_id == approver_id

unfoldable pub can_view_trip : ℕ → UserRole → ℕ → Option ℕ → Bool
can_view_trip user_id role owner_id approver_id =
    if is_admin role then true else user_id == owner_id || is_user user_id approver_id

unfoldable pub assert_trip_owner : ℕ → ℕ → Result (Unit {0})
assert_trip_owner user_id owner_id =
    check (user_id == owner_id) (forbidden_error "NOT_TRIP_OWNER" none)

unfoldable pub assert_trip_approver : ℕ → Option ℕ → Result (Unit {0})
assert_trip_approver user_id approver_id =
    check (is_user user_id approver_id) (forbidden_error "NOT_TRIP_APPROVER" none)

unfoldable pub assert_editable : TripStatus → Result (Unit {0})
assert_editable status =
    check (any (same_status status) editable_statuses) (conflict_error "TRIP_NOT_EDITABLE" none)

unfoldable pub assert_deletable : TripStatus → Result (Unit {0})
assert_deletable status =
    check (any (same_status status) deletable_statuses) (conflict_error "TRIP_NOT_DELETABLE" none)

unfoldable pub assert_completable : ℕ → ℕ → Result (Unit {0})
assert_completable end_date today =
    check (not (leb today end_date)) (conflict_error "TRIP_NOT_ENDED" none)

-- `(reason or "").strip()`
abbrev pub or_empty : Option String → String
or_empty none = ""
or_empty (some text) = text

unfoldable pub assert_reject_reason : Option String → Result String
assert_reject_reason reason =
    let text = strip (or_empty reason) in
    if is_empty text
    then err (validation_error "REJECT_REASON_REQUIRED" (some "reason"))
    else ok text

unfoldable pub assert_has_approver : Option ℕ → Result ℕ
assert_has_approver none = err (conflict_error "NO_APPROVER" none)
assert_has_approver (some manager_id) = ok manager_id

pub data TransitionActor : Type 0 where
  owner approver system : TransitionActor

-- `TRANSITION_ACTOR`; `none` is a missing key.
unfoldable pub transition_actor : TripStatus → TripStatus → Option TransitionActor
transition_actor TripStatus.draft TripStatus.submitted = some TransitionActor.owner
transition_actor TripStatus.submitted TripStatus.approved = some TransitionActor.approver
transition_actor TripStatus.submitted TripStatus.rejected = some TransitionActor.approver
transition_actor TripStatus.rejected TripStatus.draft = some TransitionActor.owner
transition_actor TripStatus.approved TripStatus.completed = some TransitionActor.owner
transition_actor TripStatus.completed TripStatus.settled = some TransitionActor.system
transition_actor _ _ = none

-- The branches on `actor`, by a user.
assert_actor : Option TransitionActor → ℕ → ℕ → Option ℕ → Result (Unit {0})
unfolding assert_trip_owner assert_trip_approver
assert_actor none user_id owner_id approver_id = err (unexpected "KeyError")
assert_actor (some TransitionActor.owner) user_id owner_id approver_id =
    assert_trip_owner user_id owner_id
assert_actor (some TransitionActor.approver) user_id owner_id approver_id =
    assert_trip_approver user_id approver_id
assert_actor (some TransitionActor.system) user_id owner_id approver_id =
    err (forbidden_error "SYSTEM_TRANSITION_ONLY" none)

unfoldable pub assert_transition_allowed :
    TripStatus → TripStatus → ℕ → ℕ → Option ℕ → Result (Unit {0})
unfolding assert_trip_transition transition_actor assert_actor
assert_transition_allowed current target user_id owner_id approver_id = do
  assert_trip_transition current target
  assert_actor (transition_actor current target) user_id owner_id approver_id

-- The branches on `actor`, by the system.
assert_system_actor : Option TransitionActor → Result (Unit {0})
assert_system_actor none = err (unexpected "KeyError")
assert_system_actor (some TransitionActor.system) = ok tt
assert_system_actor (some _) = err (forbidden_error "USER_TRANSITION_ONLY" none)

unfoldable pub assert_system_transition : TripStatus → TripStatus → Result (Unit {0})
unfolding assert_trip_transition transition_actor assert_system_actor
assert_system_transition current target = do
  assert_trip_transition current target
  assert_system_actor (transition_actor current target)
