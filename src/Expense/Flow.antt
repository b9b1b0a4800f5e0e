-- ===== src/Expense/Flow.antt =====
-- The transitions of an expense report (backend/app/services/expenses.py). The approval also
-- settles the trip, in the same transaction.
pub mod Spec
pub mod Refines
use skon_biztrip_web.Base.{ℕ, String, Option, none, some, [], ◌∷◌, decimal, join}
use skon_biztrip_web.Clock.{Clock}
use skon_biztrip_web.Enums.{
  ExpenseReportStatus, report_status_value, EntityType, ActivityAction, NotificationType,
}
use skon_biztrip_web.Errors.{Result, ok, err, unexpected}
use skon_biztrip_web.Centers.{assert_fund_center, assert_cost_center}
use skon_biztrip_web.Db.Table.{get}
use skon_biztrip_web.Db.Rows.{User, Trip, ExpenseReport, trip_entity}
use skon_biztrip_web.Db.Session.{Db, Service, lift, query, try_query, flush, commit, ◌>>=◌, ◌>>◌}
use skon_biztrip_web.History.{NotifySpec, record_transition}
use skon_biztrip_web.Trip.Rules.{assert_has_approver, assert_reject_reason}
use skon_biztrip_web.Trip.Flow.{settle_trip_for_report}
use skon_biztrip_web.Expense.Rules.{
  assert_expense_transition_allowed, assert_trip_completed, assert_centers_present,
  assert_has_items,
}
use skon_biztrip_web.Expense.View.{build_detail, load_visible_report, recalc_total, included_count}
use skon_biztrip_web.Expense.Edit.{Answer, save_report}

-- `_link`
report_link : ExpenseReport → String
report_link report = join ("/expenses/" ∷ decimal report.id ∷ [])

-- `_assert_transition`
unfoldable pub assert_transition : ExpenseReport → User → ExpenseReportStatus → Result (Unit {0})
assert_transition report user target =
    assert_expense_transition_allowed report.status target user.id report.user_id report.approver_id

-- `session.get(Trip, report.trip_id)`; the attributes of None raise.
unfoldable pub trip_of : ExpenseReport → Db → Result Trip
trip_of report db = elim (get report.trip_id db.trips) [
  | none ↦ err (unexpected "AttributeError")
  | some trip ↦ ok trip
]

-- What `submit_report` assigns.
abbrev pub as_submitted : ℕ → ℕ → ExpenseReport → ExpenseReport
as_submitted approver_id now report = record report {
  status = ExpenseReportStatus.submitted;
  approver_id = some approver_id;
  submitted_at = some now;
  approved_at = none;
  reject_reason = none;
}

submit_notice : User → Trip → ExpenseReport → ℕ → NotifySpec
unfolding report_link
submit_notice user trip report approver_id = record {
  user_id = approver_id;
  type = NotificationType.expense_submitted;
  title = "정산 결재 요청";
  body = join (user.name ∷ "님이 '" ∷ trip.title ∷ "' 출장의 정산서를 상신했습니다." ∷ []);
  link_url = some (report_link report);
}

unfoldable pub submit_report : Clock → User → ℕ → Service Answer
unfolding submit_notice
submit_report clock user report_id = do
  report ← try_query (load_visible_report report_id user)
  lift (assert_transition report user ExpenseReportStatus.submitted)
  trip ← try_query (trip_of report)
  lift (assert_trip_completed trip.status)
  lift (assert_centers_present report.fund_center_code report.cost_center_code)
  try_query (assert_fund_center report.fund_center_code)
  try_query (assert_cost_center report.cost_center_code)
  included ← query (included_count report.id)
  lift (assert_has_items included)
  counted ← try_query (recalc_total report)
  approver_id ← lift (assert_has_approver trip.approver_id)
  let saved = as_submitted approver_id clock.now counted
  flush (save_report saved)
  record_transition EntityType.expense_report saved.id user.id ActivityAction.submitted
      (some (report_status_value report.status))
      (some (report_status_value ExpenseReportStatus.submitted)) none
      (some (submit_notice user trip saved approver_id))
  commit
  query (build_detail saved)

-- What `approve_report` assigns.
abbrev pub as_approved : ℕ → ExpenseReport → ExpenseReport
as_approved now report = record report {
  status = ExpenseReportStatus.approved;
  approved_at = some now;
}

pub approve_notice : Trip → ExpenseReport → NotifySpec
unfolding report_link
approve_notice trip report = record {
  user_id = report.user_id;
  type = NotificationType.expense_approved;
  title = "정산이 승인되었습니다";
  body = join ("'" ∷ trip.title ∷ "' 출장의 정산서가 승인되어 정산 완료 처리되었습니다." ∷ []);
  link_url = some (report_link report);
}

unfoldable pub approve_report : Clock → User → ℕ → Service Answer
unfolding approve_notice
approve_report clock user report_id = do
  report ← try_query (load_visible_report report_id user)
  lift (assert_transition report user ExpenseReportStatus.approved)
  trip ← try_query (trip_of report)
  let saved = as_approved clock.now report
  flush (save_report saved)
  record_transition EntityType.expense_report saved.id user.id ActivityAction.approved
      (some (report_status_value report.status))
      (some (report_status_value ExpenseReportStatus.approved)) none
      (some (approve_notice trip saved))
  settle_trip_for_report trip user.id saved.report_no
  commit
  query (build_detail saved)

-- What `reject_report` assigns.
abbrev pub as_rejected : String → ExpenseReport → ExpenseReport
as_rejected reason report = record report {
  status = ExpenseReportStatus.rejected;
  reject_reason = some reason;
}

reject_notice : Trip → ExpenseReport → String → NotifySpec
unfolding report_link
reject_notice trip report reason = record {
  user_id = report.user_id;
  type = NotificationType.expense_rejected;
  title = "정산이 반려되었습니다";
  body = join ("'" ∷ trip.title ∷ "' 출장의 정산서가 반려되었습니다. 사유: " ∷ reason ∷ []);
  link_url = some (report_link report);
}

unfoldable pub reject_report : User → ℕ → String → Service Answer
unfolding reject_notice
reject_report user report_id payload_reason = do
  report ← try_query (load_visible_report report_id user)
  lift (assert_transition report user ExpenseReportStatus.rejected)
  reason ← lift (assert_reject_reason (some payload_reason))
  trip ← try_query (trip_of report)
  let saved = as_rejected reason report
  flush (save_report saved)
  record_transition EntityType.expense_report saved.id user.id ActivityAction.rejected
      (some (report_status_value report.status))
      (some (report_status_value ExpenseReportStatus.rejected)) (some reason)
      (some (reject_notice trip saved reason))
  commit
  query (build_detail saved)

-- What `reopen_report` assigns; the approver and the reason of the rejection stay.
abbrev pub as_reopened : ExpenseReport → ExpenseReport
as_reopened report = record report {
  status = ExpenseReportStatus.draft;
  submitted_at = none;
  approved_at = none;
}

unfoldable pub reopen_report : User → ℕ → Service Answer
reopen_report user report_id = do
  report ← try_query (load_visible_report report_id user)
  lift (assert_transition report user ExpenseReportStatus.draft)
  let saved = as_reopened report
  flush (save_report saved)
  record_transition EntityType.expense_report saved.id user.id ActivityAction.updated
      (some (report_status_value report.status))
      (some (report_status_value ExpenseReportStatus.draft)) (some "재작성을 위해 임시저장으로 되돌림") none
  commit
  query (build_detail saved)

-- The endpoints of backend/app/routers/expenses.py that move a report.
pub data ReportCommand : Type 0 where
  submit approve reopen : ReportCommand
  reject : String → ReportCommand

unfoldable pub run_command : ReportCommand → Clock → User → ℕ → Service Answer
run_command submit clock user report_id = submit_report clock user report_id
run_command approve clock user report_id = approve_report clock user report_id
run_command (reject reason) clock user report_id = reject_report user report_id reason
run_command reopen clock user report_id = reopen_report user report_id
