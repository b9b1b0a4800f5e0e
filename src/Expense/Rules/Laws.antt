-- ===== src/Expense/Rules/Laws.antt =====
-- What each check of the report rules lets through.
use skon_biztrip_web.Base.{
  ℕ, ℤ, ◌∙◌, pos, ◌≤ℤ◌, ◌+ℤ◌, ◌≡◌, ◌↔◌, ◌<◌, ◌⊎◌, Bool, true, false, Option, some, List, [], ◌∷◌,
  arith, int_laws,
}
use skon_biztrip_web.Enums.{ExpenseReportStatus, TripStatus}
use skon_biztrip_web.Errors.{ok}
use skon_biztrip_web.Expense.Rules.{
  assert_expense_transition_allowed, assert_report_owner, assert_report_editable,
  assert_report_creatable, assert_trip_completed, assert_item_amount, assert_report_total,
  assert_has_items, max_item_amount, max_report_total, sum_from, sum_included,
}

pub assert_report_owner-eq :
    (user_id owner_id : ℕ) → assert_report_owner user_id owner_id ≡ ok tt → user_id ≡ owner_id
unfolding assert_report_owner
assert_report_owner-eq user_id owner_id h = ground arith

pub assert_report_editable-status :
    (status : ExpenseReportStatus)
    → assert_report_editable status ≡ ok tt
    → (status ≡ ExpenseReportStatus.draft) ⊎ (status ≡ ExpenseReportStatus.rejected)
unfolding assert_report_editable
assert_report_editable-status status h = ground arith

pub assert_report_creatable-status :
    (status : TripStatus)
    → assert_report_creatable status ≡ ok tt
    → (status ≡ TripStatus.approved) ⊎ (status ≡ TripStatus.completed)
unfolding assert_report_creatable
assert_report_creatable-status status h = ground arith

pub assert_trip_completed-status :
    (status : TripStatus) → assert_trip_completed status ≡ ok tt → status ≡ TripStatus.completed
unfolding assert_trip_completed
assert_trip_completed-status status h = ground arith

pub assert_item_amount-bounds :
    (amount : ℤ)
    → assert_item_amount amount ≡ ok tt
    → (pos 0 ≤ℤ amount) × (amount ≤ℤ max_item_amount)
unfolding assert_item_amount
assert_item_amount-bounds amount h = ground arith

pub assert_report_total-le :
    (total : ℤ) → assert_report_total total ≡ ok tt → total ≤ℤ max_report_total
unfolding assert_report_total
assert_report_total-le total h = ground arith

pub assert_has_items-lt : (n : ℕ) → assert_has_items n ≡ ok tt → 0 < n
unfolding assert_has_items
assert_has_items-lt n h = ground arith

-- Who may move a report from one state to another, by the state diagram.
pub data Permitted (user_id owner_id : ℕ) (approver_id : Option ℕ)
    : ExpenseReportStatus → ExpenseReportStatus → Type 0 where
  submit :
      user_id ≡ owner_id
      → Permitted user_id owner_id approver_id ExpenseReportStatus.draft
          ExpenseReportStatus.submitted
  approve :
      approver_id ≡ some user_id
      → Permitted user_id owner_id approver_id ExpenseReportStatus.submitted
          ExpenseReportStatus.approved
  reject :
      approver_id ≡ some user_id
      → Permitted user_id owner_id approver_id ExpenseReportStatus.submitted
          ExpenseReportStatus.rejected
  reopen :
      user_id ≡ owner_id
      → Permitted user_id owner_id approver_id ExpenseReportStatus.rejected
          ExpenseReportStatus.draft

module _ (user_id owner_id : ℕ) (approver_id : Option ℕ) where
  pub allowed-Permitted :
      (current target : ExpenseReportStatus)
      → assert_expense_transition_allowed current target user_id owner_id approver_id ≡ ok tt
      → Permitted user_id owner_id approver_id current target
  unfolding assert_expense_transition_allowed
  allowed-Permitted ExpenseReportStatus.draft ExpenseReportStatus.submitted h =
      submit (ground arith)
  allowed-Permitted ExpenseReportStatus.submitted ExpenseReportStatus.approved h =
      approve (ground arith)
  allowed-Permitted ExpenseReportStatus.submitted ExpenseReportStatus.rejected h =
      reject (ground arith)
  allowed-Permitted ExpenseReportStatus.rejected ExpenseReportStatus.draft h = reopen (ground arith)
  allowed-Permitted _ _ h = absurd (ground arith)

  pub Permitted-allowed :
      {current target : ExpenseReportStatus}
      → Permitted user_id owner_id approver_id current target
      → assert_expense_transition_allowed current target user_id owner_id approver_id ≡ ok tt
  unfolding assert_expense_transition_allowed
  Permitted-allowed (submit h) = ground arith
  Permitted-allowed (approve h) = ground arith
  Permitted-allowed (reject h) = ground arith
  Permitted-allowed (reopen h) = ground arith

-- A user may move a report from one state to another exactly as its state diagram permits: the
-- applicant submits and reopens, the report's own approver approves and rejects, and nobody does
-- anything else.
pub assert_expense_transition_allowed-Permitted :
    (current target : ExpenseReportStatus) (user_id owner_id : ℕ) (approver_id : Option ℕ)
    → (assert_expense_transition_allowed current target user_id owner_id approver_id ≡ ok tt)
      ↔ Permitted user_id owner_id approver_id current target
assert_expense_transition_allowed-Permitted current target user_id owner_id approver_id = (
  allowed-Permitted user_id owner_id approver_id current target,
  Permitted-allowed user_id owner_id approver_id,
)

-- The total that a report should show: the sum over the items that are not excluded, each once.
abbrev pub total : List (ℤ × Bool) → ℤ
total [] = pos 0
total ((amount, true) ∷ rest) = total rest
total ((amount, false) ∷ rest) = amount +ℤ total rest

sum_from-total : (acc : ℤ) (amounts : List (ℤ × Bool)) → sum_from acc amounts ≡ acc +ℤ total amounts
unfolding sum_from
sum_from-total acc [] = omega int_laws
sum_from-total acc ((amount, true) ∷ rest) = sum_from-total acc rest
sum_from-total acc ((amount, false) ∷ rest) = sum_from-total (acc +ℤ amount) rest ∙ omega int_laws

-- The loop over the amounts adds each amount that is not excluded, once.
pub sum_included-total : (amounts : List (ℤ × Bool)) → sum_included amounts ≡ total amounts
unfolding sum_included
sum_included-total amounts = sum_from-total (pos 0) amounts ∙ omega int_laws
