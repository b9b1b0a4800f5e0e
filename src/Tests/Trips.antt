-- ===== src/Tests/Trips.antt =====
-- Runs of the services on trips.
use skon_biztrip_web.Base.{true, some, ◌≡◌, refl, arith}
use skon_biztrip_web.Errors.{is_ok}
use skon_biztrip_web.Enums.{TripStatus}
use skon_biztrip_web.Db.Table.{get}
use skon_biztrip_web.Db.Rows.{trip_entity}
use skon_biztrip_web.Db.Session.{handle, ◌>>=◌}
use skon_biztrip_web.Db.Session.Ends.{Ensures}
use skon_biztrip_web.Trip.Flow.{TripCommand, run_command}
use skon_biztrip_web.Trip.Flow.Spec.{Step, Moved}
use skon_biztrip_web.Trip.Flow.Refines.{run_command-Moved}
use skon_biztrip_web.Trip.Flow.Enabled.{Step-is_ok}
use skon_biztrip_web.Trip.Invariant.{IsWellFormed}
use skon_biztrip_web.Trip.Invariant.Keeps.{Step-IsWellFormed}
use skon_biztrip_web.Trip.Edit.{create_trip, update_trip, delete_trip}
use skon_biztrip_web.Trip.Edit.Effects.{Updated, Deleted, update_trip-Updated, delete_trip-Deleted}
use skon_biztrip_web.Patch.{merged}
use skon_biztrip_web.Codes.{validate_codes}
use skon_biztrip_web.Numbering.{next_trip_no}
use skon_biztrip_web.Trip.Rules.{
  assert_date_range, assert_trip_owner, assert_editable, assert_deletable, can_view_trip,
}
use skon_biztrip_web.Trip.View.{load_visible_trip}
use skon_biztrip_web.Trip.Edit.{add_trip, remove_trip}
use skon_biztrip_web.Trip.Edit.Values.{validate_writable_fields, patch_trip}
use skon_biztrip_web.Tests.Data.{
  clock, minsu, jiyoon, company, submitted_trip, trip_payload, trip_changes,
}

run_command-Moved_example :
    Ensures company
      (Moved clock jiyoon 2 TripCommand.approve company)
      (handle (run_command TripCommand.approve clock jiyoon 2) company)
run_command-Moved_example = run_command-Moved TripCommand.approve clock jiyoon 2 company

approval :
    Step clock jiyoon TripCommand.approve submitted_trip
      (record submitted_trip { status = TripStatus.approved; approved_at = some clock.now })
approval = Step.approve submitted_trip refl refl

stored_2 : get 2 company.trips ≡ some submitted_trip
unfolding get
stored_2 = refl

Step-is_ok_example :
    is_ok (handle (run_command TripCommand.approve clock jiyoon 2) company).0 ≡ true
Step-is_ok_example =
    Step-is_ok TripCommand.approve clock jiyoon 2 company submitted_trip
      (record submitted_trip { status = TripStatus.approved; approved_at = some clock.now })
      stored_2 approval

Step-IsWellFormed_example :
    IsWellFormed (record submitted_trip { status = TripStatus.approved; approved_at = some 1000 })
Step-IsWellFormed_example =
    Step-IsWellFormed approval (record { dates = ground arith; stage = (tt, tt, refl, refl) })

update_trip-Updated_example :
    Ensures company (Updated minsu 1 company) (handle (update_trip minsu 1 trip_changes) company)
update_trip-Updated_example = update_trip-Updated minsu 1 trip_changes company

delete_trip-Deleted_example :
    Ensures company (Deleted minsu 1 company) (handle (delete_trip minsu 1) company)
delete_trip-Deleted_example = delete_trip-Deleted minsu 1 company

-- Each of the runs succeeds.
create_trip_test : is_ok (handle (create_trip clock minsu trip_payload) company).0 ≡ true
unfolding handle ◌>>=◌ create_trip validate_writable_fields validate_codes next_trip_no add_trip
    assert_date_range
create_trip_test = refl

update_trip_test : is_ok (handle (update_trip minsu 1 trip_changes) company).0 ≡ true
unfolding handle ◌>>=◌ update_trip load_visible_trip can_view_trip get assert_trip_owner
    assert_editable merged validate_writable_fields validate_codes assert_date_range patch_trip
update_trip_test = refl

delete_trip_test : is_ok (handle (delete_trip minsu 1) company).0 ≡ true
unfolding handle ◌>>=◌ delete_trip load_visible_trip can_view_trip get assert_trip_owner
    assert_deletable remove_trip
delete_trip_test = refl
