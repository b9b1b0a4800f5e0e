-- ===== src/Expense/Flow/Spec.antt =====
-- The life of an expense report as a step relation over the report and its trip: the specification
-- of the endpoints that move a report.
use skon_biztrip_web.Base.{ℕ, ◌≤ℤ◌, String, ◌≡◌, ◌<◌, false, Option, none, some, strip, is_empty}
use skon_biztrip_web.Clock.{Clock}
use skon_biztrip_web.Enums.{
  TripStatus, ExpenseReportStatus, report_status_value, EntityType, ActivityAction,
  trip_status_value,
}
use skon_biztrip_web.Db.Table.{get}
use skon_biztrip_web.Db.Rows.{User, Trip, ExpenseReport, trip_entity, expense_report_entity}
use skon_biztrip_web.Db.Session.{Db}
use skon_biztrip_web.History.Laws.{Recorded}
use skon_biztrip_web.Trip.Flow.{save_trip}
use skon_biztrip_web.Expense.Rules.{max_report_total}
use skon_biztrip_web.Expense.Rules.Laws.{total}
use skon_biztrip_web.Expense.View.{amounts_of, included_count}
use skon_biztrip_web.Expense.Edit.{Answer, save_report}
use skon_biztrip_web.Expense.Flow.{ReportCommand}

-- `Step clock user db command r r'`: at that time, over that database, the user may give the command
-- for the report `r`, and it becomes `r'`.
pub data Step (clock : Clock) (user : User) (db : Db)
    : ReportCommand → ExpenseReport → ExpenseReport → Type 0 where
  submit :
      (r : ExpenseReport) (t : Trip) (approver : ℕ)
      → r.status ≡ ExpenseReportStatus.draft
      → user.id ≡ r.user_id
      → get r.trip_id db.trips ≡ some t
      → t.status ≡ TripStatus.completed
      → t.approver_id ≡ some approver
      → 0 < included_count r.id db
      → total (amounts_of r.id db.expense_items.rows) ≤ℤ max_report_total
      → Step clock user db ReportCommand.submit r (record r {
        status = ExpenseReportStatus.submitted;
        total_amount_krw = total (amounts_of r.id db.expense_items.rows);
        approver_id = some approver;
        submitted_at = some clock.now;
        approved_at = none;
        reject_reason = none;
      })
  approve :
      (r : ExpenseReport) (t : Trip)
      → r.status ≡ ExpenseReportStatus.submitted
      → r.approver_id ≡ some user.id
      → get r.trip_id db.trips ≡ some t
      → t.status ≡ TripStatus.completed
      → Step clock user db ReportCommand.approve r
          (record r { status = ExpenseReportStatus.approved; approved_at = some clock.now })
  reject :
      (r : ExpenseReport) (reason : String)
      → r.status ≡ ExpenseReportStatus.submitted
      → r.approver_id ≡ some user.id
      → is_empty (strip reason) ≡ false
      → Step clock user db
          (ReportCommand.reject reason)
          r
          (record r { status = ExpenseReportStatus.rejected; reject_reason = some (strip reason) })
  reopen :
      (r : ExpenseReport)
      → r.status ≡ ExpenseReportStatus.rejected
      → user.id ≡ r.user_id
      → Step clock user db ReportCommand.reopen r
          (record r { status = ExpenseReportStatus.draft; submitted_at = none; approved_at = none })

-- The action that the history names for a command.
abbrev pub action_of : ReportCommand → ActivityAction
action_of ReportCommand.submit = ActivityAction.submitted
action_of ReportCommand.approve = ActivityAction.approved
action_of (ReportCommand.reject reason) = ActivityAction.rejected
action_of ReportCommand.reopen = ActivityAction.updated

-- Whom a command is announced to, of the report after it.
abbrev pub recipient : ReportCommand → ExpenseReport → Option ℕ
recipient ReportCommand.submit r = r.approver_id
recipient ReportCommand.approve r = some r.user_id
recipient (ReportCommand.reject reason) r = some r.user_id
recipient ReportCommand.reopen r = none

-- The report's own change, recorded.
abbrev pub ReportRecorded : User → ReportCommand → ExpenseReport → ExpenseReport → Db → Db → Type 0
ReportRecorded user command r r' db db' =
    Recorded EntityType.expense_report r.id user.id (action_of command)
      (some (report_status_value r.status)) (some (report_status_value r'.status))
      (recipient command r') (save_report r' db) db'

-- The report's completed trip, settled and recorded.
abbrev pub TripSettled : User → ExpenseReport → Db → Db → Type 0
TripSettled user r mid db' =
    (t : Trip) × (get r.trip_id mid.trips ≡ some t)
    × (t.status ≡ TripStatus.completed)
    × Recorded EntityType.trip t.id user.id ActivityAction.settled
        (some (trip_status_value TripStatus.completed))
        (some (trip_status_value TripStatus.settled)) none
        (save_trip (record t { status = TripStatus.settled }) mid) db'

-- What follows the change of the report: the settlement after an approval, and else nothing.
abbrev pub Followed : User → ReportCommand → ExpenseReport → Db → Db → Type 0
Followed user ReportCommand.approve r mid db' = TripSettled user r mid db'
Followed user ReportCommand.submit r mid db' = db' ≡ mid
Followed user (ReportCommand.reject reason) r mid db' = db' ≡ mid
Followed user ReportCommand.reopen r mid db' = db' ≡ mid

-- The request has made a step of the report `k`, has recorded it and what follows from it.
abbrev pub Moved : Clock → User → ℕ → ReportCommand → Db → Answer → Db → Type 0
Moved clock user k command db answer db' =
    (r r' : ExpenseReport) × (mid : Db) × (get k db.expense_reports ≡ some r)
    × Step clock user db command r r'
    × ReportRecorded user command r r' db mid
    × Followed user command r mid db'
