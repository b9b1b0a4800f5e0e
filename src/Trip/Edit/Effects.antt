-- ===== src/Trip/Edit/Effects.antt =====
-- What creating, changing and deleting a trip does to the database.
use skon_biztrip_web.Base.{
  ℕ, String, ◌≡◌, ◌≤◌, ◌⊎◌, refl, false, none, some, arith, any, ◌==◌, str_eq,
}
use skon_biztrip_web.Clock.{Clock}
use skon_biztrip_web.Enums.{TripStatus, trip_status_value, EntityType, ActivityAction}
use skon_biztrip_web.Errors.{ok}
use skon_biztrip_web.Db.Table.{get, insert, delete}
use skon_biztrip_web.Db.Rows.{User, Trip, ExpenseReport, trip_entity}
use skon_biztrip_web.Db.Session.{Db, handle}
use skon_biztrip_web.Db.Session.Ends.{
  Ensures, Ends-handle, Ends-query, Ends-pure, Ends-flush, Ends-try_flush, Ends-commit, Ends-lift,
  Ends-try_query, Ends-query_bind,
}
use skon_biztrip_web.History.Laws.{Recorded, write_transition-Recorded}
use skon_biztrip_web.Trip.Rules.{assert_deletable}
use skon_biztrip_web.Trip.Rules.Laws.{assert_trip_owner-eq}
use skon_biztrip_web.Trip.View.{TripDetail}
use skon_biztrip_web.Trip.Flow.{save_trip}
use skon_biztrip_web.Trip.Flow.Refines.{load_visible_trip-get}
use skon_biztrip_web.Trip.Edit.{create_trip, update_trip, delete_trip, add_trip, remove_trip}
use skon_biztrip_web.Trip.Edit.Values.{TripCreate, TripUpdate, new_trip}
use skon_biztrip_web.Trip.Edit.Laws.{
  SameLife, patch_trip-SameLife, patch_trip-start_date, patch_trip-end_date,
  validate_writable_fields-dates, assert_editable-status,
}

-- One new draft of the user, under a new key and an unused number, with its dates in order.
abbrev pub Created : User → TripCreate → Db → TripDetail → Db → Type 0
Created user payload db detail db' =
    (trip_no : String) × (any (λ (t : Trip). str_eq t.trip_no trip_no) db.trips.rows ≡ false)
    × (payload.start_date ≤ payload.end_date)
    × Recorded EntityType.trip db.trips.next_id user.id ActivityAction.created none
        (some (trip_status_value TripStatus.draft)) none
        (record db { trips = insert (new_trip payload trip_no user) db.trips }) db'

-- The user's own draft or rejected trip, changed in columns that its life does not turn on.
abbrev pub Updated : User → ℕ → Db → TripDetail → Db → Type 0
Updated user k db detail db' =
    (t t' : Trip) × (get k db.trips ≡ some t)
    × (user.id ≡ t.user_id)
    × ((t.status ≡ TripStatus.draft) ⊎ (t.status ≡ TripStatus.rejected))
    × SameLife t t'
    × (t'.start_date ≤ t'.end_date)
    × Recorded EntityType.trip t'.id user.id ActivityAction.updated
        (some (trip_status_value t'.status)) (some (trip_status_value t'.status)) none
        (save_trip t' db) db'

-- The user's own draft, gone, and no report refers to it.
abbrev pub Deleted : User → ℕ → Db → Unit {0} → Db → Type 0
Deleted user k db _ db' =
    (t : Trip) × (get k db.trips ≡ some t)
    × (user.id ≡ t.user_id)
    × (t.status ≡ TripStatus.draft)
    × (any (λ (r : ExpenseReport). r.trip_id == t.id) db.expense_reports.rows ≡ false)
    × (db' ≡ record db { trips = delete t.id db.trips })

add_trip-ok :
    (trip : Trip) (db db' : Db)
    → add_trip trip db ≡ ok db'
    → (any (λ (t : Trip). str_eq t.trip_no trip.trip_no) db.trips.rows ≡ false)
      × (db' ≡ record db { trips = insert (λ id. trip) db.trips })
unfolding add_trip
add_trip-ok trip db db' h = ground arith

remove_trip-ok :
    (trip : Trip) (db db' : Db)
    → remove_trip trip db ≡ ok db'
    → (any (λ (r : ExpenseReport). r.trip_id == trip.id) db.expense_reports.rows ≡ false)
      × (db' ≡ record db { trips = delete trip.id db.trips })
unfolding remove_trip
remove_trip-ok trip db db' h = ground arith

assert_deletable-draft :
    (status : TripStatus) → assert_deletable status ≡ ok tt → status ≡ TripStatus.draft
unfolding assert_deletable
assert_deletable-draft status h = ground arith

pub create_trip-Created :
    (clock : Clock) (user : User) (payload : TripCreate) (db : Db)
    → Ensures db (Created user payload db) (handle (create_trip clock user payload) db)
unfolding create_trip insert
create_trip-Created clock user payload db = Ends-handle _ (
    Ends-try_query _ _ _ refl λ _ valid. Ends-try_query _ _ _ refl λ trip_no _.
      Ends-query_bind _ _ _ (
        Ends-try_flush _ _ _ refl λ db' added. Ends-flush _ _ _ (
          Ends-commit _ _ (
            Ends-query _ _ (
              let (unused, same) = add_trip-ok _ db db' added in
              (
                trip_no,
                unused,
                validate_writable_fields-dates _ db _ _ refl refl valid,
                rw same (write_transition-Recorded _ _ _ _ _ _ _ _ _),
              ))))))

-- Changing a trip is the owner's, of a draft or a rejected trip; it reaches neither the state nor
-- the approval, leaves the dates in order, and is recorded; or it changes nothing.
pub update_trip-Updated :
    (user : User) (k : ℕ) (payload : TripUpdate) (db : Db)
    → Ensures db (Updated user k db) (handle (update_trip user k payload) db)
unfolding update_trip
update_trip-Updated user k payload db = Ends-handle _ (
    Ends-try_query _ _ _ refl λ t seen. Ends-lift _ _ _ refl λ _ own.
      Ends-lift _ _ _ refl λ _ editable. Ends-try_query _ _ _ refl λ _ valid.
        Ends-lift _ _ _ refl λ t' patched. Ends-flush _ _ _ (
          Ends-flush _ _ _ (
            Ends-commit _ _ (
              Ends-query _ _ (
                t,
                t',
                load_visible_trip-get user k db t seen,
                assert_trip_owner-eq _ _ own,
                assert_editable-status t.status editable,
                patch_trip-SameLife payload t t' patched,
                validate_writable_fields-dates _ db _ _ (patch_trip-start_date payload t t' patched)
                    (patch_trip-end_date payload t t' patched) valid,
                write_transition-Recorded _ _ _ _ _ _ _ _ _,
              )))))

-- Only the owner deletes a trip, only as a draft and only if no report refers to it; nothing else
-- changes, and a refusal changes nothing.
pub delete_trip-Deleted :
    (user : User) (k : ℕ) (db : Db)
    → Ensures db (Deleted user k db) (handle (delete_trip user k) db)
unfolding delete_trip
delete_trip-Deleted user k db = Ends-handle _ (
    Ends-try_query _ _ _ refl λ t seen. Ends-lift _ _ _ refl λ _ own.
      Ends-lift _ _ _ refl λ _ deletable. Ends-try_flush _ _ _ refl λ db' removed. Ends-commit _ _ (
        Ends-pure _ _ (
          let (unused, same) = remove_trip-ok t db db' removed in
          (
            t,
            load_visible_trip-get user k db t seen,
            assert_trip_owner-eq _ _ own,
            assert_deletable-draft t.status deletable,
            unused,
            same,
          ))))
