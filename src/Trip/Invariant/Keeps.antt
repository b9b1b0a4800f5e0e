-- ===== src/Trip/Invariant/Keeps.antt =====
-- Every request on trips keeps the stored trips well formed.
use skon_biztrip_web.Base.{ℕ, ◌≡◌, ◌≤◌, refl, arith}
use skon_biztrip_web.Clock.{Clock}
use skon_biztrip_web.Enums.{TripStatus}
use skon_biztrip_web.Db.Table.Laws.{All-get, All-put, All-insert, All-delete}
use skon_biztrip_web.Db.Rows.{User, Trip, trip_entity}
use skon_biztrip_web.Db.Session.{Db}
use skon_biztrip_web.Trip.Flow.{TripCommand, save_trip}
use skon_biztrip_web.Trip.Flow.Spec.{Step, Moved}
use skon_biztrip_web.Trip.View.{TripDetail}
use skon_biztrip_web.Trip.Edit.Laws.{SameLife}
use skon_biztrip_web.Trip.Edit.Values.{TripCreate}
use skon_biztrip_web.Trip.Edit.Effects.{Created, Updated, Deleted}
use skon_biztrip_web.Trip.Invariant.{IsWellFormed, TripsAreWellFormed}

-- A step of the state diagram keeps a trip well formed, its key and its applicant.
pub Step-IsWellFormed :
    {clock : Clock} {user : User} {command : TripCommand} {t t' : Trip}
    → Step clock user command t t'
    → IsWellFormed t
    → IsWellFormed t'
Step-IsWellFormed (Step.submit t manager status own dates managed) w = ground arith
Step-IsWellFormed (Step.approve t status own) w = ground arith
Step-IsWellFormed (Step.reject t reason status own filled) w = ground arith
Step-IsWellFormed (Step.reopen t status own) w = ground arith
Step-IsWellFormed (Step.complete t status own ended) w = ground arith

-- So does the settlement.
pub settle-IsWellFormed :
    (t : Trip)
    → t.status ≡ TripStatus.completed
    → IsWellFormed t
    → IsWellFormed (record t { status = TripStatus.settled })
settle-IsWellFormed t completed w = ground arith

SameLife-IsWellFormed :
    (t t' : Trip) → SameLife t t' → t'.start_date ≤ t'.end_date → IsWellFormed t → IsWellFormed t'
SameLife-IsWellFormed t t' same dates w = record {
  dates = dates;
  stage = rw same.status (
      rw same.approver_id
        (rw same.submitted_at (rw same.approved_at (rw same.reject_reason w.stage))));
}

-- Saving a well formed trip keeps the others so.
pub save_trip-TripsAreWellFormed :
    (t' : Trip) (db : Db)
    → TripsAreWellFormed db
    → IsWellFormed t'
    → TripsAreWellFormed (save_trip t' db)
unfolding save_trip
save_trip-TripsAreWellFormed t' db h w = All-put IsWellFormed t' db.trips h w

pub Moved-trips :
    (clock : Clock) (user : User) (k : ℕ) (command : TripCommand) (db : Db) (detail : TripDetail)
    (db' : Db)
    → TripsAreWellFormed db
    → Moved clock user k command db detail db'
    → TripsAreWellFormed db'
Moved-trips clock user k command db detail db' h (t, t', found, step, recorded) =
    rw recorded.trips (
      save_trip-TripsAreWellFormed t' db h
        (Step-IsWellFormed step (All-get IsWellFormed k db.trips t h found)))

pub Created-trips :
    (user : User) (payload : TripCreate) (db : Db) (detail : TripDetail) (db' : Db)
    → TripsAreWellFormed db
    → Created user payload db detail db'
    → TripsAreWellFormed db'
Created-trips user payload db detail db' h (trip_no, unused, dates, recorded) =
    rw recorded.trips
      (All-insert IsWellFormed _ db.trips h (record { dates = dates; stage = (refl, refl, refl) }))

pub Updated-trips :
    (user : User) (k : ℕ) (db : Db) (detail : TripDetail) (db' : Db)
    → TripsAreWellFormed db
    → Updated user k db detail db'
    → TripsAreWellFormed db'
Updated-trips user k db detail db' h (t, t', found, own, editable, same, dates, recorded) =
    rw recorded.trips (
      save_trip-TripsAreWellFormed t' db h
        (SameLife-IsWellFormed t t' same dates (All-get IsWellFormed k db.trips t h found)))

pub Deleted-trips :
    (user : User) (k : ℕ) (db : Db) (done : Unit {0}) (db' : Db)
    → TripsAreWellFormed db
    → Deleted user k db done db'
    → TripsAreWellFormed db'
Deleted-trips user k db done db' h (t, found, own, draft, unused, same) =
    rw same (All-delete IsWellFormed t.id db.trips h)
