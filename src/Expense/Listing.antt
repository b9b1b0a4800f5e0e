-- ===== src/Expense/Listing.antt =====
-- The list of reports (backend/app/services/expenses.py). The database's ILIKE is a parameter, of the
-- column and the pattern.
use skon_biztrip_web.Base.{
  ℕ, String, Bool, true, false, ◌&&◌, ◌||◌, Option, none, some, List, [], ◌∷◌, any, select, length,
  join, str_eq, is_empty, leb, sort_by, ◌==◌, if◌then◌else◌,
}
use skon_biztrip_web.Enums.{ExpenseReportStatus, report_status_value, is_admin}
use skon_biztrip_web.Errors.{Result, ok, err, forbidden_error}
use skon_biztrip_web.Db.Table.{get}
use skon_biztrip_web.Db.Rows.{User, Trip, ExpenseReport, trip_entity}
use skon_biztrip_web.Db.Session.{Db, Service, lift, query, try_query, pure, ◌>>=◌, ◌>>◌}
use skon_biztrip_web.Page.{Page, slice}
use skon_biztrip_web.Trip.Rules.{is_user}
use skon_biztrip_web.Trip.Listing.{TripScope}
use skon_biztrip_web.Expense.View.{ExpenseReportListItem, build_list_items}

pub record ExpenseFilters : Type 0 where
  pub scope : TripScope
  pub status : List ExpenseReportStatus
  pub q : Option String
  pub page : ℕ
  pub size : ℕ

-- The condition of `_scope_conditions`.
abbrev pub in_scope : User → TripScope → ExpenseReport → Bool
in_scope user TripScope.mine report = report.user_id == user.id
in_scope user TripScope.approvals report = is_user user.id report.approver_id
in_scope user TripScope.all report = true

-- The refusal of `_scope_conditions`.
abbrev pub assert_scope : User → TripScope → Result (Unit {0})
assert_scope user TripScope.mine = ok tt
assert_scope user TripScope.approvals = ok tt
assert_scope user TripScope.all =
    if is_admin user.role then ok tt else err (forbidden_error "FORBIDDEN_SCOPE" none)

-- `if filters.status`, and the membership.
abbrev pub has_status : List ExpenseReportStatus → ExpenseReportStatus → Bool
has_status [] status = true
has_status (s ∷ rest) status =
    any (λ (x : ExpenseReportStatus). str_eq (report_status_value x) (report_status_value status))
      (s ∷ rest)

-- `ExpenseReport.id.desc()`
abbrev pub is_newer : ExpenseReport → ExpenseReport → Bool
is_newer a b = leb b.id a.id

module _ (ilike : String → String → Bool) where
  -- The three columns that `q` searches.
  abbrev pub mentions : Option String → ExpenseReport → Trip → Bool
  mentions none report trip = true
  mentions (some q) report trip =
      if is_empty q
      then true
      else ilike report.report_no (join ("%" ∷ q ∷ "%" ∷ []))
        || ilike trip.title (join ("%" ∷ q ∷ "%" ∷ []))
        || ilike trip.trip_no (join ("%" ∷ q ∷ "%" ∷ []))

  -- The join drops a report without its trip.
  abbrev pub is_joined : Option String → ExpenseReport → Option Trip → Bool
  is_joined q report none = false
  is_joined q report (some trip) = mentions q report trip

  unfoldable pub selected_reports : User → ExpenseFilters → Db → List ExpenseReport
  selected_reports user filters db = sort_by is_newer (
      select
        (λ (r : ExpenseReport).
          in_scope user filters.scope r
          && has_status filters.status r.status
          && is_joined filters.q r (get r.trip_id db.trips))
        db.expense_reports.rows)

  unfoldable pub list_reports : User → ExpenseFilters → Service (Page ExpenseReportListItem)
  list_reports user filters = do
    lift (assert_scope user filters.scope)
    rows ← query (selected_reports user filters)
    items ← try_query (build_list_items (slice filters.page filters.size rows))
    pure (record { items = items; total = length rows; page = filters.page; size = filters.size })
