-- ===== src/Expense/Edit/Effects.antt =====
-- What opening a report and changing its header does to the database.
use skon_biztrip_web.Base.{
  ℕ, String, ◌≡◌, refl, ◌⊎◌, false, none, some, arith, any, ◌==◌, ◌||◌, str_eq,
}
use skon_biztrip_web.Clock.{Clock}
use skon_biztrip_web.Enums.{
  TripStatus, ExpenseReportStatus, report_status_value, EntityType, ActivityAction,
}
use skon_biztrip_web.Errors.{ok}
use skon_biztrip_web.Db.Table.{get, insert}
use skon_biztrip_web.Db.Rows.{User, Trip, ExpenseReport, trip_entity, expense_report_entity}
use skon_biztrip_web.Db.Session.{Db, handle}
use skon_biztrip_web.Db.Session.Ends.{
  Ensures, Ends-handle, Ends-query, Ends-flush, Ends-try_flush, Ends-commit, Ends-lift,
  Ends-try_query, Ends-query_bind,
}
use skon_biztrip_web.History.Laws.{Recorded, write_transition-Recorded}
use skon_biztrip_web.Trip.Rules.Laws.{assert_trip_owner-eq}
use skon_biztrip_web.Trip.Flow.Refines.{load_visible_trip-get}
use skon_biztrip_web.Expense.Rules.Laws.{
  assert_report_owner-eq, assert_report_editable-status, assert_report_creatable-status,
}
use skon_biztrip_web.Expense.Flow.Refines.{load_visible_report-get}
use skon_biztrip_web.Expense.Edit.{
  Answer, ExpenseReportUpdate, save_report, new_report, add_report, patch_report, create_report,
  update_report,
}

-- One new draft for the user's own approved or completed trip, which had no report, under an unused
-- number.
abbrev pub Opened : User → ℕ → Db → Answer → Db → Type 0
Opened user trip_id db answer db' =
    (t : Trip) × (report_no : String) × (get trip_id db.trips ≡ some t)
    × (user.id ≡ t.user_id)
    × ((t.status ≡ TripStatus.approved) ⊎ (t.status ≡ TripStatus.completed))
    × (any (λ (r : ExpenseReport). str_eq r.report_no report_no || r.trip_id == t.id)
          db.expense_reports.rows
        ≡ false)
    × Recorded EntityType.expense_report db.expense_reports.next_id user.id ActivityAction.created
        none (some (report_status_value ExpenseReportStatus.draft)) none
        (record db { expense_reports = insert (new_report t report_no) db.expense_reports }) db'

-- The user's own draft or rejected report, changed in its two centres only.
abbrev pub Edited : User → ℕ → ExpenseReportUpdate → Db → Answer → Db → Type 0
Edited user k payload db answer db' =
    (r : ExpenseReport) × (get k db.expense_reports ≡ some r)
    × (user.id ≡ r.user_id)
    × ((r.status ≡ ExpenseReportStatus.draft) ⊎ (r.status ≡ ExpenseReportStatus.rejected))
    × Recorded EntityType.expense_report r.id user.id ActivityAction.updated
        (some (report_status_value r.status)) (some (report_status_value r.status)) none
        (save_report (patch_report payload r) db) db'

add_report-ok :
    (report : ExpenseReport) (db db' : Db)
    → add_report report db ≡ ok db'
    → (any
          (λ (r : ExpenseReport).
            str_eq r.report_no report.report_no || r.trip_id == report.trip_id)
          db.expense_reports.rows
        ≡ false)
      × (db' ≡ record db { expense_reports = insert (λ id. report) db.expense_reports })
unfolding add_report
add_report-ok report db db' h = ground arith

pub create_report-Opened :
    (clock : Clock) (user : User) (trip_id : ℕ) (db : Db)
    → Ensures db (Opened user trip_id db) (handle (create_report clock user trip_id) db)
unfolding create_report insert
create_report-Opened clock user trip_id db = Ends-handle _ (
    Ends-try_query _ _ _ refl λ t seen. Ends-lift _ _ _ refl λ _ own.
      Ends-lift _ _ _ refl λ _ creatable. Ends-try_query _ _ _ refl λ _ _.
        Ends-try_query _ _ _ refl λ report_no _. Ends-query_bind _ _ _ (
          Ends-try_flush _ _ _ refl λ mid added. Ends-flush _ _ _ (
            Ends-commit _ _ (
              Ends-query _ _ (
                let (unused, same) = add_report-ok _ db mid added in
                (
                  t,
                  report_no,
                  load_visible_trip-get user trip_id db t seen,
                  assert_trip_owner-eq _ _ own,
                  assert_report_creatable-status t.status creatable,
                  unused,
                  rw same (write_transition-Recorded _ _ _ _ _ _ _ _ _),
                ))))))

pub update_report-Edited :
    (user : User) (k : ℕ) (payload : ExpenseReportUpdate) (db : Db)
    → Ensures db (Edited user k payload db) (handle (update_report user k payload) db)
unfolding update_report
update_report-Edited user k payload db = Ends-handle _ (
    Ends-try_query _ _ _ refl λ r seen. Ends-lift _ _ _ refl λ _ own.
      Ends-lift _ _ _ refl λ _ editable. Ends-try_query _ _ _ refl λ _ _.
        Ends-try_query _ _ _ refl λ _ _. Ends-flush _ _ _ (
          Ends-flush _ _ _ (
            Ends-commit _ _ (
              Ends-query _ _ (
                r,
                load_visible_report-get user k db r seen,
                assert_report_owner-eq _ _ own,
                assert_report_editable-status r.status editable,
                write_transition-Recorded _ _ _ _ _ _ _ _ _,
              )))))
