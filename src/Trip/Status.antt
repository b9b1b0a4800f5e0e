-- ===== src/Trip/Status.antt =====
-- Which transitions of a trip are legal (backend/app/services/trip_status.py).
use skon_biztrip_web.Base.{Bool, true, false, none, List, [], ◌∷◌, any}
use skon_biztrip_web.Enums.{TripStatus}
use skon_biztrip_web.Errors.{Result, conflict_error, check}

abbrev pub same_status : TripStatus → TripStatus → Bool
same_status TripStatus.draft TripStatus.draft = true
same_status TripStatus.submitted TripStatus.submitted = true
same_status TripStatus.approved TripStatus.approved = true
same_status TripStatus.rejected TripStatus.rejected = true
same_status TripStatus.completed TripStatus.completed = true
same_status TripStatus.settled TripStatus.settled = true
same_status _ _ = false

-- `ALLOWED_TRANSITIONS`
unfoldable pub allowed_transitions : TripStatus → List TripStatus
allowed_transitions TripStatus.draft = TripStatus.submitted ∷ []
allowed_transitions TripStatus.submitted = TripStatus.approved ∷ TripStatus.rejected ∷ []
allowed_transitions TripStatus.rejected = TripStatus.draft ∷ []
allowed_transitions TripStatus.approved = TripStatus.completed ∷ []
allowed_transitions TripStatus.completed = TripStatus.settled ∷ []
allowed_transitions TripStatus.settled = []

unfoldable pub can_transition : TripStatus → TripStatus → Bool
unfolding allowed_transitions
can_transition current target = any (same_status target) (allowed_transitions current)

unfoldable pub assert_trip_transition : TripStatus → TripStatus → Result (Unit {0})
unfolding can_transition
assert_trip_transition current target =
    check (can_transition current target) (conflict_error "TRIP_INVALID_TRANSITION" none)
