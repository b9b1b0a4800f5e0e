-- ===== src/Trip/Edit.antt =====
-- Writing, changing and deleting a trip (backend/app/services/trips.py).
pub mod Values
pub mod Laws
pub mod Effects
use skon_biztrip_web.Base.{ℕ, ◌==◌, if◌then◌else◌, none, some, any, str_eq}
use skon_biztrip_web.Clock.{Clock}
use skon_biztrip_web.Enums.{trip_status_value, TripStatus, EntityType, ActivityAction}
use skon_biztrip_web.Errors.{Result, ok, err, unexpected}
use skon_biztrip_web.Numbering.{next_trip_no}
use skon_biztrip_web.Db.Table.{insert, delete}
use skon_biztrip_web.Db.Rows.{User, Trip, ExpenseReport, trip_entity}
use skon_biztrip_web.Db.Session.{
  Db, Service, lift, pure, query, try_query, flush, try_flush, commit, ◌>>=◌, ◌>>◌,
}
use skon_biztrip_web.History.{record_transition}
use skon_biztrip_web.Trip.Rules.{assert_trip_owner, assert_editable, assert_deletable}
use skon_biztrip_web.Trip.View.{TripDetail, build_detail, load_visible_trip}
use skon_biztrip_web.Trip.Flow.{save_trip}
use skon_biztrip_web.Trip.Edit.Values.{
  TripCreate, TripUpdate, validate_writable_fields, created_values, new_trip, merged_values,
  patch_trip,
}

-- INSERT, which the unique `trip_no` may refuse.
unfoldable pub add_trip : Trip → Db → Result Db
add_trip trip db =
    if any (λ (t : Trip). str_eq t.trip_no trip.trip_no) db.trips.rows
    then err (unexpected "IntegrityError")
    else ok (record db { trips = insert (λ id. trip) db.trips })

unfoldable pub create_trip : Clock → User → TripCreate → Service TripDetail
create_trip clock user payload = do
  try_query (validate_writable_fields (created_values payload))
  trip_no ← try_query (next_trip_no clock.today)
  trip ← query (λ db. new_trip payload trip_no user db.trips.next_id)
  try_flush (add_trip trip)
  record_transition EntityType.trip trip.id user.id ActivityAction.created none
      (some (trip_status_value TripStatus.draft)) (some "출장 신청서 작성") none
  commit
  query (build_detail trip)

unfoldable pub update_trip : User → ℕ → TripUpdate → Service TripDetail
update_trip user trip_id payload = do
  trip ← try_query (load_visible_trip trip_id user)
  lift (assert_trip_owner user.id trip.user_id)
  lift (assert_editable trip.status)
  try_query (validate_writable_fields (merged_values payload trip))
  saved ← lift (patch_trip payload trip)
  flush (save_trip saved)
  record_transition EntityType.trip saved.id user.id ActivityAction.updated
      (some (trip_status_value saved.status)) (some (trip_status_value saved.status))
      (some "출장 정보 수정") none
  commit
  query (build_detail saved)

-- DELETE, which the foreign key of a report may refuse.
unfoldable pub remove_trip : Trip → Db → Result Db
remove_trip trip db =
    if any (λ (r : ExpenseReport). r.trip_id == trip.id) db.expense_reports.rows
    then err (unexpected "IntegrityError")
    else ok (record db { trips = delete trip.id db.trips })

unfoldable pub delete_trip : User → ℕ → Service (Unit {0})
delete_trip user trip_id = do
  trip ← try_query (load_visible_trip trip_id user)
  lift (assert_trip_owner user.id trip.user_id)
  lift (assert_deletable trip.status)
  try_flush (remove_trip trip)
  commit
  pure tt
