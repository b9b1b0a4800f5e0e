-- ===== src/Expense/View.antt =====
-- What an expense report answers: visibility, names, totals and the response objects
-- (backend/app/services/expenses.py, backend/app/schemas/expense.py).
use skon_biztrip_web.Base.{
  ℕ, ℤ, String, ◌++◌, Bool, not, ◌&&◌, Option, none, some, List, [], ◌∷◌, map, select, length, leb,
  ◌==◌, if◌then◌else◌, sort_by,
}
use skon_biztrip_web.Enums.{ExpenseReportStatus}
use skon_biztrip_web.Errors.{AppError, Result, ok, err, not_found_error, unexpected, ◌>>=◌, ◌>>◌}
use skon_biztrip_web.Db.Table.{get}
use skon_biztrip_web.Db.Rows.{
  User, Trip, ExpenseReport, ExpenseItem, CardTransaction, trip_entity, expense_report_entity,
  card_transaction_entity,
}
use skon_biztrip_web.Db.Session.{Db}
use skon_biztrip_web.Trip.View.{load_user_names, name_or_empty, name_if, optional_id}
use skon_biztrip_web.Expense.Rules.{
  can_view_report, effective_center, sum_included, assert_report_total,
}

pub record ExpenseReportListItem : Type 0 where
  pub id : ℕ
  pub report_no : String
  pub status : ExpenseReportStatus
  pub trip_id : ℕ
  pub trip_no : String
  pub trip_title : String
  pub trip_start_date : ℕ
  pub trip_end_date : ℕ
  pub user_id : ℕ
  pub user_name : String
  pub approver_id : Option ℕ
  pub approver_name : Option String
  pub fund_center_code : Option String
  pub cost_center_code : Option String
  pub total_amount_krw : ℤ
  pub submitted_at : Option ℕ
  pub approved_at : Option ℕ

pub record ExpenseItemOut : Type 0 where
  pub id : ℕ
  pub card_transaction_id : Option ℕ
  pub expense_category_code : String
  pub amount_krw : ℤ
  pub memo : Option String
  pub is_excluded : Bool
  pub fund_center_code : Option String
  pub cost_center_code : Option String
  pub effective_fund_center_code : Option String
  pub effective_cost_center_code : Option String
  pub merchant_name : Option String
  pub approved_at : Option ℕ

pub record ExpenseReportDetail : Type 0 where
  pub item : ExpenseReportListItem
  pub reject_reason : Option String
  pub items : List ExpenseItemOut

abbrev pub people : List ExpenseReport → List ℕ
people [] = []
people (r ∷ reports) = r.user_id ∷ (optional_id r.approver_id ++ people reports)

list_item : List (ℕ × String) → ExpenseReport → Trip → ExpenseReportListItem
list_item names report trip = record {
  id = report.id;
  report_no = report.report_no;
  status = report.status;
  trip_id = report.trip_id;
  trip_no = trip.trip_no;
  trip_title = trip.title;
  trip_start_date = trip.start_date;
  trip_end_date = trip.end_date;
  user_id = report.user_id;
  user_name = name_or_empty report.user_id names;
  approver_id = report.approver_id;
  approver_name = name_if report.approver_id names;
  fund_center_code = report.fund_center_code;
  cost_center_code = report.cost_center_code;
  total_amount_krw = report.total_amount_krw;
  submitted_at = report.submitted_at;
  approved_at = report.approved_at;
}

-- The loop of `build_list_items`: `trips[report.trip_id]` is a KeyError without the trip.
list_items : List (ℕ × String) → List ExpenseReport → Db → Result (List ExpenseReportListItem)
unfolding list_item
list_items names [] db = ok []
list_items names (report ∷ reports) db = elim (get report.trip_id db.trips) [
  | none ↦ err (unexpected "KeyError")
  | some trip ↦ do rest ← list_items names reports db; ok (list_item names report trip ∷ rest)
]

unfoldable pub build_list_items : List ExpenseReport → Db → Result (List ExpenseReportListItem)
unfolding list_items
build_list_items reports db = list_items (load_user_names (people reports) db) reports db

-- The rows of a report's items.
abbrev pub items_of : ℕ → List ExpenseItem → List ExpenseItem
items_of report_id rows = select (λ i. i.report_id == report_id) rows

-- `transactions.get(row.card_transaction_id)`; 0 is no id to Python's `if`.
abbrev pub transaction_of : Option ℕ → Db → Option CardTransaction
transaction_of none db = none
transaction_of (some k) db = if k == 0 then none else get k db.card_transactions

item_out : ExpenseReport → Db → ExpenseItem → ExpenseItemOut
item_out report db row =
    let transaction = transaction_of row.card_transaction_id db in
    record {
      id = row.id;
      card_transaction_id = row.card_transaction_id;
      expense_category_code = row.expense_category_code;
      amount_krw = row.amount_krw;
      memo = row.memo;
      is_excluded = row.is_excluded;
      fund_center_code = row.fund_center_code;
      cost_center_code = row.cost_center_code;
      effective_fund_center_code = effective_center row.fund_center_code report.fund_center_code;
      effective_cost_center_code = effective_center row.cost_center_code report.cost_center_code;
      merchant_name = elim transaction [ none ↦ none | some t ↦ some t.merchant_name ];
      approved_at = elim transaction [ none ↦ none | some t ↦ some t.approved_at ];
    }

-- `_load_items`
unfoldable pub load_items : ExpenseReport → Db → List ExpenseItemOut
unfolding item_out
load_items report db =
    map (item_out report db)
      (sort_by (λ (a b : ExpenseItem). leb a.id b.id) (items_of report.id db.expense_items.rows))

unfoldable pub build_detail : ExpenseReport → Db → Result ExpenseReportDetail
unfolding build_list_items load_items
build_detail report db = elim (build_list_items (report ∷ []) db) [
  | err e ↦ err e
  | ok [] ↦ err (unexpected "ValueError")
  | ok (item ∷ _) ↦
      ok
        (record { item = item; reject_reason = report.reject_reason; items = load_items report db })
]

abbrev pub report_not_found : AppError
report_not_found = not_found_error "EXPENSE_NOT_FOUND" none

-- `report is None or not can_view_report(…)`
visible_or_missing : User → Option ExpenseReport → Result ExpenseReport
visible_or_missing user none = err report_not_found
visible_or_missing user (some report) =
    if can_view_report user.id user.role report.user_id report.approver_id
    then ok report
    else err report_not_found

unfoldable pub load_visible_report : ℕ → User → Db → Result ExpenseReport
unfolding visible_or_missing
load_visible_report report_id user db = visible_or_missing user (get report_id db.expense_reports)

-- The pairs that `_recalc_total` selects.
abbrev pub amounts_of : ℕ → List ExpenseItem → List (ℤ × Bool)
amounts_of report_id [] = []
amounts_of report_id (i ∷ rows) =
    if i.report_id == report_id
    then (i.amount_krw, i.is_excluded) ∷ amounts_of report_id rows
    else amounts_of report_id rows

-- `_recalc_total`: the report with its total assigned.
unfoldable pub recalc_total : ExpenseReport → Db → Result ExpenseReport
recalc_total report db = do
  let total = sum_included (amounts_of report.id db.expense_items.rows)
  assert_report_total total
  ok (record report { total_amount_krw = total })

-- The count of a report's items that are not excluded.
unfoldable pub included_count : ℕ → Db → ℕ
included_count report_id db = length (
    select (λ (i : ExpenseItem). i.report_id == report_id && not i.is_excluded)
      db.expense_items.rows)
