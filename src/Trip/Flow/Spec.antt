-- ===== src/Trip/Flow/Spec.antt =====
-- The life of a trip as a step relation, written from the state diagram and its conditions and not
-- from the code: the specification of the endpoints that move a trip.
use skon_biztrip_web.Base.{ℕ, String, ◌≡◌, ◌≤◌, ◌<◌, false, Option, none, some, strip, is_empty}
use skon_biztrip_web.Clock.{Clock}
use skon_biztrip_web.Enums.{TripStatus, trip_status_value, EntityType, ActivityAction}
use skon_biztrip_web.Db.Table.{get}
use skon_biztrip_web.Db.Rows.{User, Trip, trip_entity}
use skon_biztrip_web.Db.Session.{Db}
use skon_biztrip_web.History.Laws.{Recorded}
use skon_biztrip_web.Trip.View.{TripDetail}
use skon_biztrip_web.Trip.Flow.{TripCommand, save_trip}

-- `Step clock user command t t'`: at that time the user may give the command for the trip `t`, and
-- it becomes `t'`.
pub data Step (clock : Clock) (user : User) : TripCommand → Trip → Trip → Type 0 where
  submit :
      (t : Trip) (manager : ℕ)
      → t.status ≡ TripStatus.draft
      → user.id ≡ t.user_id
      → t.start_date ≤ t.end_date
      → user.manager_id ≡ some manager
      → Step clock user TripCommand.submit t (record t {
        status = TripStatus.submitted;
        approver_id = some manager;
        submitted_at = some clock.now;
        approved_at = none;
        reject_reason = none;
      })
  approve :
      (t : Trip)
      → t.status ≡ TripStatus.submitted
      → t.approver_id ≡ some user.id
      → Step clock user TripCommand.approve t
          (record t { status = TripStatus.approved; approved_at = some clock.now })
  reject :
      (t : Trip) (reason : String)
      → t.status ≡ TripStatus.submitted
      → t.approver_id ≡ some user.id
      → is_empty (strip reason) ≡ false
      → Step clock user
          (TripCommand.reject reason)
          t
          (record t { status = TripStatus.rejected; reject_reason = some (strip reason) })
  reopen :
      (t : Trip)
      → t.status ≡ TripStatus.rejected
      → user.id ≡ t.user_id
      → Step clock user TripCommand.reopen t (record t {
        status = TripStatus.draft;
        approver_id = none;
        submitted_at = none;
        approved_at = none;
      })
  complete :
      (t : Trip)
      → t.status ≡ TripStatus.approved
      → user.id ≡ t.user_id
      → t.end_date < clock.today
      → Step clock user TripCommand.complete t (record t { status = TripStatus.completed })

-- The action that the history names for a command.
abbrev pub action_of : TripCommand → ActivityAction
action_of TripCommand.submit = ActivityAction.submitted
action_of TripCommand.approve = ActivityAction.approved
action_of (TripCommand.reject reason) = ActivityAction.rejected
action_of TripCommand.reopen = ActivityAction.updated
action_of TripCommand.complete = ActivityAction.completed

-- Whom a command is announced to, of the trip after it.
abbrev pub recipient : TripCommand → Trip → Option ℕ
recipient TripCommand.submit t = t.approver_id
recipient TripCommand.approve t = some t.user_id
recipient (TripCommand.reject reason) t = some t.user_id
recipient TripCommand.reopen t = none
recipient TripCommand.complete t = none

-- The request has made a step of the trip `k`, and has recorded it.
abbrev pub Moved : Clock → User → ℕ → TripCommand → Db → TripDetail → Db → Type 0
Moved clock user k command db detail db' =
    (t t' : Trip) × (get k db.trips ≡ some t)
    × Step clock user command t t'
    × Recorded EntityType.trip t.id user.id (action_of command) (some (trip_status_value t.status))
        (some (trip_status_value t'.status)) (recipient command t') (save_trip t' db) db'
