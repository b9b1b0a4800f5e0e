-- ===== src/Trip/Flow/Enabled.antt =====
-- Every step of the state diagram is open to the user to whom it belongs.
use skon_biztrip_web.Base.{ℕ, ◌≡◌, some, arith, true}
use skon_biztrip_web.Clock.{Clock}
use skon_biztrip_web.Enums.{TripStatus}
use skon_biztrip_web.Errors.{ok, is_ok}
use skon_biztrip_web.Db.Table.{get}
use skon_biztrip_web.Db.Rows.{User, Trip, trip_entity}
use skon_biztrip_web.Db.Session.{Db, handle, ◌>>=◌}
use skon_biztrip_web.Trip.Rules.{can_view_trip}
use skon_biztrip_web.Trip.Rules.Laws.{
  Permitted, Permitted-allowed, le-assert_date_range, lt-assert_completable, eq-assert_has_approver,
  strip-assert_reject_reason,
}
use skon_biztrip_web.Trip.View.{load_visible_trip}
use skon_biztrip_web.Trip.Flow.{
  TripCommand, assert_transition, submit_trip, approve_trip, reject_trip, reopen_trip,
  complete_trip, run_command,
}
use skon_biztrip_web.Trip.Flow.Spec.{Step}

module _ (user : User) (k : ℕ) (db : Db) (t : Trip) (found : get k db.trips ≡ some t) where
  owner_sees : user.id ≡ t.user_id → load_visible_trip k user db ≡ ok t
  unfolding load_visible_trip can_view_trip
  owner_sees own = ground arith

  approver_sees : t.approver_id ≡ some user.id → load_visible_trip k user db ≡ ok t
  unfolding load_visible_trip can_view_trip
  approver_sees own = ground arith

transition_passes :
    (user : User) (t : Trip) (from target : TripStatus)
    → t.status ≡ from
    → Permitted user.id t.user_id t.approver_id from target
    → assert_transition t user target ≡ ok tt
unfolding assert_transition
transition_passes user t from target status p =
    rw status (Permitted-allowed user.id t.user_id t.approver_id p)

-- A command that the state diagram allows for the trip `k` does not fail.
pub Step-is_ok :
    (command : TripCommand) (clock : Clock) (user : User) (k : ℕ) (db : Db) (t t' : Trip)
    → get k db.trips ≡ some t
    → Step clock user command t t'
    → is_ok (handle (run_command command clock user k) db).0 ≡ true
unfolding run_command submit_trip approve_trip reject_trip reopen_trip complete_trip handle ◌>>=◌
Step-is_ok _ clock user k db _ _ found (Step.submit t manager status own dates managed) = ground (
  arith,
  owner_sees user k db t found own,
  transition_passes user t TripStatus.draft TripStatus.submitted status (Permitted.submit own),
  le-assert_date_range t.start_date t.end_date dates,
  eq-assert_has_approver user.manager_id manager managed,
)
Step-is_ok _ clock user k db _ _ found (Step.approve t status own) = ground (
  arith,
  approver_sees user k db t found own,
  transition_passes user t TripStatus.submitted TripStatus.approved status (Permitted.approve own),
)
Step-is_ok _ clock user k db _ _ found (Step.reject t reason status own filled) = ground (
  arith,
  approver_sees user k db t found own,
  transition_passes user t TripStatus.submitted TripStatus.rejected status (Permitted.reject own),
  strip-assert_reject_reason reason filled,
)
Step-is_ok _ clock user k db _ _ found (Step.reopen t status own) = ground (
  arith,
  owner_sees user k db t found own,
  transition_passes user t TripStatus.rejected TripStatus.draft status (Permitted.reopen own),
)
Step-is_ok _ clock user k db _ _ found (Step.complete t status own ended) = ground (
  arith,
  owner_sees user k db t found own,
  transition_passes user t TripStatus.approved TripStatus.completed status (Permitted.complete own),
  lt-assert_completable t.end_date clock.today ended,
)
