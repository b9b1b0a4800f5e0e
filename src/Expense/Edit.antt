-- ===== src/Expense/Edit.antt =====
-- Opening an expense report and changing its header (backend/app/services/expenses.py).
pub mod Effects
use skon_biztrip_web.Base.{
  ℕ, pos, String, ◌==◌, if◌then◌else◌, Option, none, some, ◌||◌, ◌∷◌, [], any, first, str_eq, join,
}
use skon_biztrip_web.Clock.{Clock}
use skon_biztrip_web.Enums.{ExpenseReportStatus, report_status_value, EntityType, ActivityAction}
use skon_biztrip_web.Errors.{Result, ok, err, conflict_error, unexpected}
use skon_biztrip_web.Patch.{Patch, assigned, sent}
use skon_biztrip_web.Numbering.{next_report_no}
use skon_biztrip_web.Centers.{assert_fund_center, assert_cost_center}
use skon_biztrip_web.Db.Table.{put, insert}
use skon_biztrip_web.Db.Rows.{User, Trip, ExpenseReport, expense_report_entity}
use skon_biztrip_web.Db.Session.{
  Db, Service, lift, query, try_query, flush, try_flush, commit, ◌>>=◌, ◌>>◌,
}
use skon_biztrip_web.History.{record_transition}
use skon_biztrip_web.Trip.Rules.{assert_trip_owner}
use skon_biztrip_web.Trip.View.{load_visible_trip}
use skon_biztrip_web.Expense.Rules.{
  assert_report_creatable, assert_report_owner, assert_report_editable,
}
use skon_biztrip_web.Expense.View.{ExpenseReportDetail, build_detail, load_visible_report}

-- The response is built after the commit: a failure there is a 500 over a stored change.
abbrev pub Answer : Type 0
Answer = Result ExpenseReportDetail

-- The changed object, flushed.
unfoldable pub save_report : ExpenseReport → Db → Db
save_report report db = record db { expense_reports = put report db.expense_reports }

-- The check that the trip has no report yet.
unfoldable pub assert_no_report : Trip → Db → Result (Unit {0})
assert_no_report trip db =
    elim (first (λ (r : ExpenseReport). r.trip_id == trip.id) db.expense_reports.rows) [
      | none ↦ ok tt
      | some _ ↦ err (conflict_error "EXPENSE_ALREADY_EXISTS" none)
    ]

-- The new row, before its key is known.
abbrev pub new_report : Trip → String → ℕ → ExpenseReport
new_report trip report_no id = record {
  id = id;
  report_no = report_no;
  trip_id = trip.id;
  user_id = trip.user_id;
  status = ExpenseReportStatus.draft;
  fund_center_code = none;
  cost_center_code = trip.cost_center_code;
  total_amount_krw = pos 0;
  approver_id = trip.approver_id;
  submitted_at = none;
  approved_at = none;
  reject_reason = none;
}

-- INSERT, which the unique `report_no` or `trip_id` may refuse.
unfoldable pub add_report : ExpenseReport → Db → Result Db
add_report report db =
    if any
      (λ (r : ExpenseReport). str_eq r.report_no report.report_no || r.trip_id == report.trip_id)
      db.expense_reports.rows
    then err (unexpected "IntegrityError")
    else ok (record db { expense_reports = insert (λ id. report) db.expense_reports })

unfoldable pub create_report : Clock → User → ℕ → Service Answer
create_report clock user payload_trip_id = do
  trip ← try_query (load_visible_trip payload_trip_id user)
  lift (assert_trip_owner user.id trip.user_id)
  lift (assert_report_creatable trip.status)
  try_query (assert_no_report trip)
  report_no ← try_query (next_report_no clock.utc_today)
  report ← query (λ db. new_report trip report_no db.expense_reports.next_id)
  try_flush (add_report report)
  record_transition EntityType.expense_report report.id user.id ActivityAction.created none
      (some (report_status_value ExpenseReportStatus.draft))
      (some (join (trip.trip_no ∷ " 정산서 작성" ∷ []))) none
  commit
  query (build_detail report)

pub record ExpenseReportUpdate : Type 0 where
  pub fund_center_code : Patch String
  pub cost_center_code : Patch String

-- A centre that is sent and not null is checked (`_validate_item_centers` too).
unfoldable pub assert_fund_center_if : Option String → Db → Result (Unit {0})
assert_fund_center_if none db = ok tt
assert_fund_center_if (some code) db = assert_fund_center (some code) db

unfoldable pub assert_cost_center_if : Option String → Db → Result (Unit {0})
assert_cost_center_if none db = ok tt
assert_cost_center_if (some code) db = assert_cost_center (some code) db

abbrev pub patch_report : ExpenseReportUpdate → ExpenseReport → ExpenseReport
patch_report payload report = record report {
  fund_center_code = assigned payload.fund_center_code report.fund_center_code;
  cost_center_code = assigned payload.cost_center_code report.cost_center_code;
}

unfoldable pub update_report : User → ℕ → ExpenseReportUpdate → Service Answer
update_report user report_id payload = do
  report ← try_query (load_visible_report report_id user)
  lift (assert_report_owner user.id report.user_id)
  lift (assert_report_editable report.status)
  try_query (assert_fund_center_if (sent payload.fund_center_code))
  try_query (assert_cost_center_if (sent payload.cost_center_code))
  let saved = patch_report payload report
  flush (save_report saved)
  record_transition EntityType.expense_report saved.id user.id ActivityAction.updated
      (some (report_status_value saved.status)) (some (report_status_value saved.status))
      (some "정산서 헤더 수정") none
  commit
  query (build_detail saved)
