-- ===== src/Trip/Flow/Refines.antt =====
-- The services that move a trip against the step relation: each success is a step, and each step is
-- a success.
use skon_biztrip_web.Base.{ℕ, String, strip, is_empty, ◌≡◌, refl, some, arith, false, Option}
use skon_biztrip_web.Clock.{Clock}
use skon_biztrip_web.Enums.{TripStatus}
use skon_biztrip_web.Errors.{ok}
use skon_biztrip_web.Db.Table.{get}
use skon_biztrip_web.Db.Rows.{User, Trip, trip_entity}
use skon_biztrip_web.Db.Session.{Db, handle}
use skon_biztrip_web.Db.Session.Ends.{
  Ensures, Ends-handle, Ends-query, Ends-flush, Ends-commit, Ends-lift, Ends-try_query,
}
use skon_biztrip_web.History.Laws.{write_transition-Recorded}
use skon_biztrip_web.Trip.Rules.{assert_reject_reason}
use skon_biztrip_web.Trip.Rules.Laws.{
  Permitted, allowed-Permitted, assert_date_range-le, assert_completable-lt, assert_has_approver-eq,
  assert_reject_reason-strip,
}
use skon_biztrip_web.Trip.View.{load_visible_trip}
use skon_biztrip_web.Trip.Flow.{
  TripCommand, assert_transition, submit_trip, approve_trip, reject_trip, reopen_trip,
  complete_trip, run_command,
}
use skon_biztrip_web.Trip.Flow.Spec.{Step, Moved}

pub load_visible_trip-get :
    (user : User) (k : ℕ) (db : Db) (t : Trip)
    → load_visible_trip k user db ≡ ok t
    → get k db.trips ≡ some t
unfolding load_visible_trip
load_visible_trip-get user k db t h = ground arith

module _ (user : User) (t : Trip) (target : TripStatus) where
  permission :
      assert_transition t user target ≡ ok tt
      → Permitted user.id t.user_id t.approver_id t.status target
  unfolding assert_transition
  permission h = allowed-Permitted user.id t.user_id t.approver_id t.status target h

-- Each state is entered from one state, by one kind of actor.
module _ {user_id owner_id : ℕ} {approver_id : Option ℕ} where
  to_submitted :
      {from : TripStatus}
      → Permitted user_id owner_id approver_id from TripStatus.submitted
      → (from ≡ TripStatus.draft) × (user_id ≡ owner_id)
  to_submitted (Permitted.submit h) = (refl, h)

  to_approved :
      {from : TripStatus}
      → Permitted user_id owner_id approver_id from TripStatus.approved
      → (from ≡ TripStatus.submitted) × (approver_id ≡ some user_id)
  to_approved (Permitted.approve h) = (refl, h)

  to_rejected :
      {from : TripStatus}
      → Permitted user_id owner_id approver_id from TripStatus.rejected
      → (from ≡ TripStatus.submitted) × (approver_id ≡ some user_id)
  to_rejected (Permitted.reject h) = (refl, h)

  to_draft :
      {from : TripStatus}
      → Permitted user_id owner_id approver_id from TripStatus.draft
      → (from ≡ TripStatus.rejected) × (user_id ≡ owner_id)
  to_draft (Permitted.reopen h) = (refl, h)

  to_completed :
      {from : TripStatus}
      → Permitted user_id owner_id approver_id from TripStatus.completed
      → (from ≡ TripStatus.approved) × (user_id ≡ owner_id)
  to_completed (Permitted.complete h) = (refl, h)

module _ (clock : Clock) (user : User) (k : ℕ) (db : Db) where
  submit_trip-Moved :
      Ensures db (Moved clock user k TripCommand.submit db) (handle (submit_trip clock user k) db)
  unfolding submit_trip
  submit_trip-Moved = Ends-handle _ (
      Ends-try_query _ _ _ refl λ t seen. Ends-lift _ _ _ refl λ _ allowed.
        Ends-lift _ _ _ refl λ _ dates. Ends-lift _ _ _ refl λ manager found. Ends-flush _ _ _ (
          Ends-flush _ _ _ (
            Ends-commit _ _ (
              Ends-query _ _ (
                t,
                _,
                load_visible_trip-get user k db t seen,
                let (from, who) = to_submitted (permission user t TripStatus.submitted allowed) in
                    Step.submit t manager from who (assert_date_range-le _ _ dates)
                      (assert_has_approver-eq _ _ found),
                write_transition-Recorded _ _ _ _ _ _ _ _ _,
              )))))

  approve_trip-Moved :
      Ensures db (Moved clock user k TripCommand.approve db) (handle (approve_trip clock user k) db)
  unfolding approve_trip
  approve_trip-Moved = Ends-handle _ (
      Ends-try_query _ _ _ refl λ t seen. Ends-lift _ _ _ refl λ _ allowed. Ends-flush _ _ _ (
        Ends-flush _ _ _ (
          Ends-commit _ _ (
            Ends-query _ _ (
              t,
              _,
              load_visible_trip-get user k db t seen,
              let (from, who) = to_approved (permission user t TripStatus.approved allowed) in
                  Step.approve t from who,
              write_transition-Recorded _ _ _ _ _ _ _ _ _,
            )))))

  reopen_trip-Moved :
      Ensures db (Moved clock user k TripCommand.reopen db) (handle (reopen_trip user k) db)
  unfolding reopen_trip
  reopen_trip-Moved = Ends-handle _ (
      Ends-try_query _ _ _ refl λ t seen. Ends-lift _ _ _ refl λ _ allowed. Ends-flush _ _ _ (
        Ends-flush _ _ _ (
          Ends-commit _ _ (
            Ends-query _ _ (
              t,
              _,
              load_visible_trip-get user k db t seen,
              let (from, who) = to_draft (permission user t TripStatus.draft allowed) in
                  Step.reopen t from who,
              write_transition-Recorded _ _ _ _ _ _ _ _ _,
            )))))

  reject_trip-Moved :
      (reason : String)
      → Ensures db
          (Moved clock user k (TripCommand.reject reason) db)
          (handle (reject_trip user k reason) db)
  unfolding reject_trip
  reject_trip-Moved reason = Ends-handle _ (
      Ends-try_query _ _ _ refl λ t seen. Ends-lift _ _ _ refl λ _ allowed.
        Ends-lift _ _ _ refl λ text given. Ends-flush _ _ _ (
          Ends-flush _ _ _ (
            Ends-commit _ _ (
              Ends-query _ _ (
                t,
                record t { status = TripStatus.rejected; reject_reason = some (strip reason) },
                load_visible_trip-get user k db t seen,
                let (from, who) = to_rejected (permission user t TripStatus.rejected allowed) in
                    Step.reject t reason from who (stripped text given).1,
                rw (← (stripped text given).0) (write_transition-Recorded _ _ _ _ _ _ _ _ _),
              )))))
    where
      stripped :
          (text : String)
          → assert_reject_reason (some reason) ≡ ok text
          → (text ≡ strip reason) × (is_empty (strip reason) ≡ false)
      stripped text given =
          let (same, filled) = assert_reject_reason-strip reason text given in
          (same, rw same at filled)

  complete_trip-Moved :
      Ensures db
        (Moved clock user k TripCommand.complete db)
        (handle (complete_trip clock user k) db)
  unfolding complete_trip
  complete_trip-Moved = Ends-handle _ (
      Ends-try_query _ _ _ refl λ t seen. Ends-lift _ _ _ refl λ _ allowed.
        Ends-lift _ _ _ refl λ _ ended. Ends-flush _ _ _ (
          Ends-flush _ _ _ (
            Ends-commit _ _ (
              Ends-query _ _ (
                t,
                _,
                load_visible_trip-get user k db t seen,
                let (from, who) = to_completed (permission user t TripStatus.completed allowed) in
                    Step.complete t from who (assert_completable-lt _ _ ended),
                write_transition-Recorded _ _ _ _ _ _ _ _ _,
              )))))

-- A request that moves a trip either makes one step of the state diagram on the trip that it names,
-- with one row of history between the two states and one notification to the recipient unless that
-- is the actor, and changes nothing else; or it answers an error and the database is as it was.
pub run_command-Moved :
    (command : TripCommand) (clock : Clock) (user : User) (k : ℕ) (db : Db)
    → Ensures db (Moved clock user k command db) (handle (run_command command clock user k) db)
unfolding run_command
run_command-Moved TripCommand.submit clock user k db = submit_trip-Moved clock user k db
run_command-Moved TripCommand.approve clock user k db = approve_trip-Moved clock user k db
run_command-Moved (TripCommand.reject reason) clock user k db =
    reject_trip-Moved clock user k db reason
run_command-Moved TripCommand.reopen clock user k db = reopen_trip-Moved clock user k db
run_command-Moved TripCommand.complete clock user k db = complete_trip-Moved clock user k db
