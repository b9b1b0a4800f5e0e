-- ===== src/Trip/Flow.antt =====
-- The transitions of a trip (backend/app/services/trips.py): each loads the trip, checks who may
-- do what, changes it, writes the history, and commits last.
pub mod Spec
pub mod Refines
pub mod Enabled
use skon_biztrip_web.Base.{ℕ, String, none, some, [], ◌∷◌, decimal, join}
use skon_biztrip_web.Clock.{Clock}
use skon_biztrip_web.Enums.{
  TripStatus, trip_status_value, EntityType, ActivityAction, NotificationType,
}
use skon_biztrip_web.Errors.{Result}
use skon_biztrip_web.Db.Table.{put}
use skon_biztrip_web.Db.Rows.{User, Trip, trip_entity}
use skon_biztrip_web.Db.Session.{Db, Service, lift, query, try_query, flush, commit, ◌>>=◌, ◌>>◌}
use skon_biztrip_web.History.{NotifySpec, record_transition}
use skon_biztrip_web.Trip.Rules.{
  assert_date_range, assert_completable, assert_reject_reason, assert_has_approver,
  assert_transition_allowed, assert_system_transition,
}
use skon_biztrip_web.Trip.View.{TripDetail, build_detail, load_visible_trip}

-- `_link`
trip_link : Trip → String
trip_link trip = join ("/trips/" ∷ decimal trip.id ∷ [])

-- `_assert_transition`
unfoldable pub assert_transition : Trip → User → TripStatus → Result (Unit {0})
assert_transition trip user target =
    assert_transition_allowed trip.status target user.id trip.user_id trip.approver_id

-- The changed object, flushed.
unfoldable pub save_trip : Trip → Db → Db
save_trip trip db = record db { trips = put trip db.trips }

-- What `submit_trip` assigns.
abbrev pub as_submitted : ℕ → ℕ → Trip → Trip
as_submitted approver_id now trip = record trip {
  status = TripStatus.submitted;
  approver_id = some approver_id;
  submitted_at = some now;
  approved_at = none;
  reject_reason = none;
}

submit_notice : User → Trip → ℕ → NotifySpec
unfolding trip_link
submit_notice user trip approver_id = record {
  user_id = approver_id;
  type = NotificationType.trip_submitted;
  title = "출장 결재 요청";
  body = join (user.name ∷ "님이 '" ∷ trip.title ∷ "' 출장을 상신했습니다." ∷ []);
  link_url = some (trip_link trip);
}

unfoldable pub submit_trip : Clock → User → ℕ → Service TripDetail
unfolding submit_notice
submit_trip clock user trip_id = do
  trip ← try_query (load_visible_trip trip_id user)
  lift (assert_transition trip user TripStatus.submitted)
  lift (assert_date_range trip.start_date trip.end_date)
  approver_id ← lift (assert_has_approver user.manager_id)
  let saved = as_submitted approver_id clock.now trip
  flush (save_trip saved)
  record_transition EntityType.trip saved.id user.id ActivityAction.submitted
      (some (trip_status_value trip.status)) (some (trip_status_value TripStatus.submitted)) none
      (some (submit_notice user saved approver_id))
  commit
  query (build_detail saved)

-- What `approve_trip` assigns.
abbrev pub as_approved : ℕ → Trip → Trip
as_approved now trip = record trip { status = TripStatus.approved; approved_at = some now }

approve_notice : User → Trip → NotifySpec
unfolding trip_link
approve_notice user trip = record {
  user_id = trip.user_id;
  type = NotificationType.trip_approved;
  title = "출장이 승인되었습니다";
  body = join ("'" ∷ trip.title ∷ "' 출장이 " ∷ user.name ∷ "님에게 승인되었습니다." ∷ []);
  link_url = some (trip_link trip);
}

unfoldable pub approve_trip : Clock → User → ℕ → Service TripDetail
unfolding approve_notice
approve_trip clock user trip_id = do
  trip ← try_query (load_visible_trip trip_id user)
  lift (assert_transition trip user TripStatus.approved)
  let saved = as_approved clock.now trip
  flush (save_trip saved)
  record_transition EntityType.trip saved.id user.id ActivityAction.approved
      (some (trip_status_value trip.status)) (some (trip_status_value TripStatus.approved)) none
      (some (approve_notice user saved))
  commit
  query (build_detail saved)

-- What `reject_trip` assigns.
abbrev pub as_rejected : String → Trip → Trip
as_rejected reason trip = record trip { status = TripStatus.rejected; reject_reason = some reason }

reject_notice : Trip → String → NotifySpec
unfolding trip_link
reject_notice trip reason = record {
  user_id = trip.user_id;
  type = NotificationType.trip_rejected;
  title = "출장이 반려되었습니다";
  body = join ("'" ∷ trip.title ∷ "' 출장이 반려되었습니다. 사유: " ∷ reason ∷ []);
  link_url = some (trip_link trip);
}

unfoldable pub reject_trip : User → ℕ → String → Service TripDetail
unfolding reject_notice
reject_trip user trip_id payload_reason = do
  trip ← try_query (load_visible_trip trip_id user)
  lift (assert_transition trip user TripStatus.rejected)
  reason ← lift (assert_reject_reason (some payload_reason))
  let saved = as_rejected reason trip
  flush (save_trip saved)
  record_transition EntityType.trip saved.id user.id ActivityAction.rejected
      (some (trip_status_value trip.status)) (some (trip_status_value TripStatus.rejected))
      (some reason) (some (reject_notice saved reason))
  commit
  query (build_detail saved)

-- What `reopen_trip` assigns; the reason of the rejection stays.
abbrev pub as_reopened : Trip → Trip
as_reopened trip = record trip {
  status = TripStatus.draft;
  approver_id = none;
  submitted_at = none;
  approved_at = none;
}

unfoldable pub reopen_trip : User → ℕ → Service TripDetail
reopen_trip user trip_id = do
  trip ← try_query (load_visible_trip trip_id user)
  lift (assert_transition trip user TripStatus.draft)
  let saved = as_reopened trip
  flush (save_trip saved)
  record_transition EntityType.trip saved.id user.id ActivityAction.updated
      (some (trip_status_value trip.status)) (some (trip_status_value TripStatus.draft))
      (some "재작성을 위해 임시저장으로 되돌림") none
  commit
  query (build_detail saved)

-- What `complete_trip` assigns.
abbrev pub as_completed : Trip → Trip
as_completed trip = record trip { status = TripStatus.completed }

unfoldable pub complete_trip : Clock → User → ℕ → Service TripDetail
complete_trip clock user trip_id = do
  trip ← try_query (load_visible_trip trip_id user)
  lift (assert_transition trip user TripStatus.completed)
  lift (assert_completable trip.end_date clock.today)
  let saved = as_completed trip
  flush (save_trip saved)
  record_transition EntityType.trip saved.id user.id ActivityAction.completed
      (some (trip_status_value trip.status)) (some (trip_status_value TripStatus.completed))
      (some "출장 완료 처리") none
  commit
  query (build_detail saved)

-- What `settle_trip_for_report` assigns.
abbrev pub as_settled : Trip → Trip
as_settled trip = record trip { status = TripStatus.settled }

-- No commit: the approval of the report ends the transaction.
unfoldable pub settle_trip_for_report : Trip → ℕ → String → Service (Unit {0})
settle_trip_for_report trip actor_id report_no = do
  lift (assert_system_transition trip.status TripStatus.settled)
  let saved = as_settled trip
  flush (save_trip saved)
  record_transition EntityType.trip saved.id actor_id ActivityAction.settled
      (some (trip_status_value trip.status)) (some (trip_status_value TripStatus.settled))
      (some (join ("정산서 " ∷ report_no ∷ " 승인으로 정산 완료" ∷ []))) none

-- The endpoints of backend/app/routers/trips.py that move a trip.
pub data TripCommand : Type 0 where
  submit approve reopen complete : TripCommand
  reject : String → TripCommand

unfoldable pub run_command : TripCommand → Clock → User → ℕ → Service TripDetail
run_command submit clock user trip_id = submit_trip clock user trip_id
run_command approve clock user trip_id = approve_trip clock user trip_id
run_command (reject reason) clock user trip_id = reject_trip user trip_id reason
run_command reopen clock user trip_id = reopen_trip user trip_id
run_command complete clock user trip_id = complete_trip clock user trip_id
