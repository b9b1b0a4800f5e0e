-- ===== src/Expense/Settled/Requests.antt =====
-- Each effect of a request keeps the approved reports' trips settled.
use skon_biztrip_web.Base.{ℕ, ◌≡◌, refl, ap, ◌∙◌, some, arith, inl, inr, Bool-cases, ◌==◌}
use skon_biztrip_web.Clock.{Clock}
use skon_biztrip_web.Enums.{TripStatus}
use skon_biztrip_web.Db.Table.{Table, get, put}
use skon_biztrip_web.Db.Table.Laws.{replaced, get-ident, get-put}
use skon_biztrip_web.Db.Rows.{
  User, Trip, ExpenseReport, ExpenseItem, trip_entity, expense_report_entity,
}
use skon_biztrip_web.Db.Session.{Db}
use skon_biztrip_web.Trip.View.{TripDetail}
use skon_biztrip_web.Trip.Flow.{TripCommand, save_trip}
use skon_biztrip_web.Trip.Flow.Spec as TripSpec
use skon_biztrip_web.Trip.Edit.Values.{TripCreate}
use skon_biztrip_web.Trip.Edit.Effects.{Created, Updated, Deleted}
use skon_biztrip_web.Expense.Edit.{Answer, ExpenseReportUpdate, save_report}
use skon_biztrip_web.Expense.Edit.Effects.{Opened, Edited}
use skon_biztrip_web.Expense.Items.Effects.{Retotaled}
use skon_biztrip_web.Expense.Flow.{ReportCommand}
use skon_biztrip_web.Expense.Flow.Spec.{Step, Moved}
use skon_biztrip_web.Expense.Settled.{IsSettled, Closes, ReportsSettled}
use skon_biztrip_web.Expense.Settled.Keeps.{
  put-Settled, insert-Settled, delete-Settled, put_report-Settled, insert_report-Settled,
}

-- A found trip, under its own key.
under_ident :
    (k : ℕ) (trips : Table Trip) (t : Trip) → get k trips ≡ some t → get t.id trips ≡ some t
under_ident k trips t found = ap (λ j. get j trips) (get-ident k trips t found) ∙ found

-- No step leaves the settled state, and none changes the key.
Step-unsettled :
    {clock : Clock} {user : User} {command : TripCommand} {t t' : Trip}
    → TripSpec.Step clock user command t t'
    → (t'.id ≡ t.id) × ¬ (t.status ≡ TripStatus.settled)
Step-unsettled (TripSpec.Step.submit t manager status own dates managed) = (refl, λ h. ground arith)
Step-unsettled (TripSpec.Step.approve t status own) = (refl, λ h. ground arith)
Step-unsettled (TripSpec.Step.reject t reason status own filled) = (refl, λ h. ground arith)
Step-unsettled (TripSpec.Step.reopen t status own) = (refl, λ h. ground arith)
Step-unsettled (TripSpec.Step.complete t status own ended) = (refl, λ h. ground arith)

pub Moved-trip-settled :
    (clock : Clock) (user : User) (k : ℕ) (command : TripCommand) (db : Db) (detail : TripDetail)
    (db' : Db)
    → ReportsSettled db
    → TripSpec.Moved clock user k command db detail db'
    → ReportsSettled db'
unfolding save_trip
Moved-trip-settled clock user k command db detail db' s (t, t', found, step, recorded) =
    let (same, unsettled) = Step-unsettled step in
    rw recorded.expense_reports (
      rw recorded.trips (
        put-Settled db.expense_reports db.trips s t t' (under_ident k db.trips t found) same
          (λ h. absurd (unsettled h))))

pub Created-settled :
    (user : User) (payload : TripCreate) (db : Db) (detail : TripDetail) (db' : Db)
    → ReportsSettled db
    → Created user payload db detail db'
    → ReportsSettled db'
Created-settled user payload db detail db' s (trip_no, unused, dates, recorded) =
    rw recorded.expense_reports
      (rw recorded.trips (insert-Settled db.expense_reports db.trips s _ refl))

pub Updated-settled :
    (user : User) (k : ℕ) (db : Db) (detail : TripDetail) (db' : Db)
    → ReportsSettled db
    → Updated user k db detail db'
    → ReportsSettled db'
unfolding save_trip
Updated-settled user k db detail db' s (t, t', found, own, editable, same, dates, recorded) =
    rw recorded.expense_reports (
      rw recorded.trips (
        put-Settled db.expense_reports db.trips s t t' (under_ident k db.trips t found) same.id
          (λ h. same.status ∙ h)))

pub Deleted-settled :
    (user : User) (k : ℕ) (db : Db) (done : Unit {0}) (db' : Db)
    → ReportsSettled db
    → Deleted user k db done db'
    → ReportsSettled db'
Deleted-settled user k db done db' s (t, found, own, draft, unused, same) = rw same (
    delete-Settled db.expense_reports db.trips s t (under_ident k db.trips t found)
      (λ h. ground arith))

-- What a stored report closes.
closing :
    (k : ℕ) (db : Db) (r : ExpenseReport)
    → ReportsSettled db
    → get k db.expense_reports ≡ some r
    → Closes r.status (get r.trip_id db.trips)
closing k db r s found = rw found at (s.closes k)

pub Opened-settled :
    (user : User) (trip_id : ℕ) (db : Db) (answer : Answer) (db' : Db)
    → ReportsSettled db
    → Opened user trip_id db answer db'
    → ReportsSettled db'
Opened-settled user trip_id db answer db' s (t, report_no, found, own, status, unused, recorded) =
    rw recorded.expense_reports
      (rw recorded.trips (insert_report-Settled db.expense_reports db.trips s _ refl tt))

pub Edited-settled :
    (user : User) (k : ℕ) (payload : ExpenseReportUpdate) (db : Db) (answer : Answer) (db' : Db)
    → ReportsSettled db
    → Edited user k payload db answer db'
    → ReportsSettled db'
unfolding save_report
Edited-settled user k payload db answer db' s (r, found, own, status, recorded) =
    rw recorded.expense_reports (
      rw recorded.trips
        (put_report-Settled db.expense_reports db.trips s _ (closing k db r s found)))

pub Retotaled-settled :
    (user : User) (k : ℕ) (r : ExpenseReport) (items : Table ExpenseItem) (db db' : Db)
    → ReportsSettled db
    → Retotaled user k r items db db'
    → ReportsSettled db'
Retotaled-settled user k r items db db' s h =
    rw h.stored (put_report-Settled db.expense_reports db.trips s _ (closing k db r s h.found))

at_place :
    (k : ℕ) (t : Trip)
    → t.id ≡ k
    → IsSettled (replaced (t.id == k) (record t { status = TripStatus.settled }) (some t))
at_place k t place = elim (Bool-cases (t.id == k)) [
  | inl here ↦ rw here refl
  | inr there ↦ absurd (ground arith)
]

-- The trip of an approved report, found settled.
settled_found :
    (trips : Table Trip) (k : ℕ) (t : Trip)
    → get k trips ≡ some t
    → IsSettled (get k (put (record t { status = TripStatus.settled }) trips))
settled_found trips k t found =
    let place : t.id ≡ k = get-ident k trips t found in
    rw (get-put k (record t { status = TripStatus.settled }) trips) (rw found (at_place k t place))

pub Moved-report-settled :
    (clock : Clock) (user : User) (k : ℕ) (command : ReportCommand) (db : Db) (answer : Answer)
    (db' : Db)
    → ReportsSettled db
    → Moved clock user k command db answer db'
    → ReportsSettled db'
unfolding save_report save_trip
Moved-report-settled clock user k _ db answer db' s
      (
        _,
        _,
        mid,
        found,
        Step.submit r t approver from own at_trip completed approved filled bounded,
        recorded,
        followed,
      ) =
    rw followed (
      rw recorded.expense_reports
        (rw recorded.trips (put_report-Settled db.expense_reports db.trips s _ tt)))
Moved-report-settled clock user k _ db answer db' s
      (_, _, mid, found, Step.reject r reason from own filled, recorded, followed) =
    rw followed (
      rw recorded.expense_reports
        (rw recorded.trips (put_report-Settled db.expense_reports db.trips s _ tt)))
Moved-report-settled clock user k _ db answer db' s
      (_, _, mid, found, Step.reopen r from own, recorded, followed) =
    rw followed (
      rw recorded.expense_reports
        (rw recorded.trips (put_report-Settled db.expense_reports db.trips s _ tt)))
Moved-report-settled clock user k _ db answer db' s
      (
        _,
        _,
        mid,
        found,
        Step.approve r u from own at_trip done,
        recorded,
        (t, at_mid, completed, settlement),
      ) =
    let at_db : get r.trip_id db.trips ≡ some t = rw recorded.trips at at_mid in
    rw settlement.expense_reports (
      rw settlement.trips (
        rw recorded.expense_reports (
          rw recorded.trips (
            put_report-Settled db.expense_reports
              (put (record t { status = TripStatus.settled }) db.trips)
              (put-Settled db.expense_reports db.trips s t _
                (under_ident r.trip_id db.trips t at_db) refl (λ h. refl))
              _ (settled_found db.trips r.trip_id t at_db)))))
