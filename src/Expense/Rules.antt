-- ===== src/Expense/Rules.antt =====
-- The rules of an expense report that need no database (backend/app/services/expense_rules.py).
-- Amounts are hundredths of a won.
pub mod Laws
use skon_biztrip_web.Base.{
  ℕ, ℤ, pos, ◌+ℤ◌, ltb_ℤ, String, strip, is_empty, Bool, true, false, not, ◌||◌, Option, none, some,
  List, [], ◌∷◌, any, leb, ◌==◌, if◌then◌else◌,
}
use skon_biztrip_web.Enums.{TripStatus, ExpenseReportStatus, UserRole, is_admin}
use skon_biztrip_web.Errors.{
  Result, ok, err, check, ◌>>=◌, ◌>>◌, validation_error, forbidden_error, conflict_error,
  unexpected,
}
use skon_biztrip_web.Trip.Status.{same_status}
use skon_biztrip_web.Trip.Rules.{TransitionActor, is_user, or_empty}

abbrev pub same_report_status : ExpenseReportStatus → ExpenseReportStatus → Bool
same_report_status ExpenseReportStatus.draft ExpenseReportStatus.draft = true
same_report_status ExpenseReportStatus.submitted ExpenseReportStatus.submitted = true
same_report_status ExpenseReportStatus.approved ExpenseReportStatus.approved = true
same_report_status ExpenseReportStatus.rejected ExpenseReportStatus.rejected = true
same_report_status _ _ = false

abbrev pub expense_editable_statuses : List ExpenseReportStatus
expense_editable_statuses = ExpenseReportStatus.draft ∷ ExpenseReportStatus.rejected ∷ []

abbrev pub reportable_trip_statuses : List TripStatus
reportable_trip_statuses = TripStatus.approved ∷ TripStatus.completed ∷ []

-- 9999999999.99
abbrev pub max_item_amount : ℤ
max_item_amount = pos 999999999999

-- 999999999999.99
abbrev pub max_report_total : ℤ
max_report_total = pos 99999999999999

unfoldable pub can_view_report : ℕ → UserRole → ℕ → Option ℕ → Bool
can_view_report user_id role owner_id approver_id =
    if is_admin role then true else user_id == owner_id || is_user user_id approver_id

unfoldable pub assert_report_owner : ℕ → ℕ → Result (Unit {0})
assert_report_owner user_id owner_id =
    check (user_id == owner_id) (forbidden_error "NOT_EXPENSE_OWNER" none)

unfoldable pub assert_report_approver : ℕ → Option ℕ → Result (Unit {0})
assert_report_approver user_id approver_id =
    check (is_user user_id approver_id) (forbidden_error "NOT_EXPENSE_APPROVER" none)

unfoldable pub assert_report_editable : ExpenseReportStatus → Result (Unit {0})
assert_report_editable status =
    check (any (same_report_status status) expense_editable_statuses)
      (conflict_error "EXPENSE_NOT_EDITABLE" none)

unfoldable pub assert_report_creatable : TripStatus → Result (Unit {0})
assert_report_creatable trip_status =
    check (any (same_status trip_status) reportable_trip_statuses)
      (conflict_error "TRIP_NOT_REPORTABLE" none)

unfoldable pub assert_trip_completed : TripStatus → Result (Unit {0})
assert_trip_completed trip_status =
    check (same_status trip_status TripStatus.completed) (conflict_error "TRIP_NOT_COMPLETED" none)

unfoldable pub assert_item_amount : ℤ → Result (Unit {0})
assert_item_amount amount = do
  check (not (ltb_ℤ amount (pos 0))) (validation_error "INVALID_AMOUNT" (some "amount_krw"))
  check (not (ltb_ℤ max_item_amount amount)) (validation_error "INVALID_AMOUNT" (some "amount_krw"))

unfoldable pub assert_report_total : ℤ → Result (Unit {0})
assert_report_total total =
    check (not (ltb_ℤ max_report_total total))
      (validation_error "TOTAL_AMOUNT_EXCEEDED" (some "amount_krw"))

unfoldable pub assert_has_items : ℕ → Result (Unit {0})
assert_has_items item_count =
    check (not (leb item_count 0)) (conflict_error "EXPENSE_NO_ITEMS" none)

abbrev pub is_blank : Option String → Bool
is_blank code = is_empty (strip (or_empty code))

unfoldable pub assert_centers_present : Option String → Option String → Result (Unit {0})
assert_centers_present fund_center_code cost_center_code = do
  check (not (is_blank fund_center_code))
      (validation_error "CENTER_REQUIRED" (some "fund_center_code"))
  check (not (is_blank cost_center_code))
      (validation_error "CENTER_REQUIRED" (some "cost_center_code"))

unfoldable pub effective_center : Option String → Option String → Option String
effective_center none report_code = report_code
effective_center (some code) report_code = some code

-- Python's `sum` adds from the left.
unfoldable pub sum_from : ℤ → List (ℤ × Bool) → ℤ
sum_from acc [] = acc
sum_from acc ((amount, excluded) ∷ rest) = sum_from (if excluded then acc else acc +ℤ amount) rest

-- The sum of the amounts that are not excluded.
unfoldable pub sum_included : List (ℤ × Bool) → ℤ
unfolding sum_from
sum_included amounts = sum_from (pos 0) amounts

-- `EXPENSE_ALLOWED_TRANSITIONS`
unfoldable pub expense_allowed_transitions : ExpenseReportStatus → List ExpenseReportStatus
expense_allowed_transitions ExpenseReportStatus.draft = ExpenseReportStatus.submitted ∷ []
expense_allowed_transitions ExpenseReportStatus.submitted =
    ExpenseReportStatus.approved ∷ ExpenseReportStatus.rejected ∷ []
expense_allowed_transitions ExpenseReportStatus.rejected = ExpenseReportStatus.draft ∷ []
expense_allowed_transitions ExpenseReportStatus.approved = []

-- `EXPENSE_TRANSITION_ACTOR`; `none` is a missing key.
unfoldable pub expense_transition_actor :
    ExpenseReportStatus → ExpenseReportStatus → Option TransitionActor
expense_transition_actor ExpenseReportStatus.draft ExpenseReportStatus.submitted =
    some TransitionActor.owner
expense_transition_actor ExpenseReportStatus.submitted ExpenseReportStatus.approved =
    some TransitionActor.approver
expense_transition_actor ExpenseReportStatus.submitted ExpenseReportStatus.rejected =
    some TransitionActor.approver
expense_transition_actor ExpenseReportStatus.rejected ExpenseReportStatus.draft =
    some TransitionActor.owner
expense_transition_actor _ _ = none

-- The branches on `actor`.
assert_report_actor : Option TransitionActor → ℕ → ℕ → Option ℕ → Result (Unit {0})
unfolding assert_report_owner assert_report_approver
assert_report_actor none user_id owner_id approver_id = err (unexpected "KeyError")
assert_report_actor (some TransitionActor.owner) user_id owner_id approver_id =
    assert_report_owner user_id owner_id
assert_report_actor (some TransitionActor.approver) user_id owner_id approver_id =
    assert_report_approver user_id approver_id
assert_report_actor (some TransitionActor.system) user_id owner_id approver_id =
    err (forbidden_error "SYSTEM_TRANSITION_ONLY" none)

unfoldable pub assert_expense_transition_allowed :
    ExpenseReportStatus → ExpenseReportStatus → ℕ → ℕ → Option ℕ → Result (Unit {0})
unfolding expense_allowed_transitions expense_transition_actor assert_report_actor
assert_expense_transition_allowed current target user_id owner_id approver_id = do
  check (any (same_report_status target) (expense_allowed_transitions current))
      (conflict_error "EXPENSE_INVALID_TRANSITION" none)
  assert_report_actor (expense_transition_actor current target) user_id owner_id approver_id
