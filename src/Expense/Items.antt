-- ===== src/Expense/Items.antt =====
-- The items of an expense report (backend/app/services/expenses.py). Each change of an item ends
-- with the report's total computed anew.
pub mod Rewrites
pub mod Effects
use skon_biztrip_web.Base.{
  ℕ, ℤ, String, Bool, false, not, ◌==◌, ◌&&◌, if◌then◌else◌, Option, none, some, ◌∷◌, [], any,
  first,
}
use skon_biztrip_web.Errors.{
  Result, ok, err, validation_error, conflict_error, not_found_error, unexpected,
}
use skon_biztrip_web.Patch.{Patch, assigned, merged, sent, not_null}
use skon_biztrip_web.Codes.{validate_codes}
use skon_biztrip_web.Db.Table.{get, put, insert, delete}
use skon_biztrip_web.Db.Rows.{
  User, ExpenseReport, ExpenseItem, CardTransaction, CorporateCard, expense_item_entity,
}
use skon_biztrip_web.Db.Session.{
  Db, Service, lift, query, try_query, flush, try_flush, commit, ◌>>=◌, ◌>>◌,
}
use skon_biztrip_web.Expense.Rules.{assert_report_owner, assert_report_editable, assert_item_amount}
use skon_biztrip_web.Expense.View.{build_detail, load_visible_report, recalc_total}
use skon_biztrip_web.Expense.Edit.{
  Answer, save_report, assert_fund_center_if, assert_cost_center_if,
}

-- An amount is one of hundredths; the source takes any Decimal, and Numeric(14, 2) rounds it at the flush.
pub record ExpenseItemCreate : Type 0 where
  pub card_transaction_id : Option ℕ
  pub expense_category_code : String
  pub amount_krw : Option ℤ
  pub memo : Option String
  pub fund_center_code : Option String
  pub cost_center_code : Option String

pub record ExpenseItemUpdate : Type 0 where
  pub expense_category_code : Patch String
  pub amount_krw : Patch ℤ
  pub memo : Patch String
  pub is_excluded : Patch Bool
  pub fund_center_code : Patch String
  pub cost_center_code : Patch String

-- `_load_editable_report`
unfoldable pub load_editable_report : User → ℕ → Db → Result ExpenseReport
load_editable_report user report_id db = elim (load_visible_report report_id user db) [
  | err e ↦ err e
  | ok report ↦ elim (assert_report_owner user.id report.user_id) [
    | err e ↦ err e
    | ok _ ↦ elim (assert_report_editable report.status) [ err e ↦ err e | ok _ ↦ ok report ]
  ]
]

-- `session.get(ExpenseItem, item_id)`, or a 404.
unfoldable pub load_item : ℕ → Db → Result ExpenseItem
load_item item_id db = elim (get item_id db.expense_items) [
  | none ↦ err (not_found_error "EXPENSE_ITEM_NOT_FOUND" none)
  | some item ↦ ok item
]

-- The condition of the join: the card of the transaction is the user's.
abbrev pub is_card_of : ℕ → Db → CardTransaction → Bool
is_card_of user_id db t =
    any (λ (c : CorporateCard). c.id == t.card_id && c.user_id == user_id) db.corporate_cards.rows

-- `card_transaction_id == transaction_id`, where a null is equal to nothing.
abbrev pub is_transaction : ℕ → Option ℕ → Bool
is_transaction transaction_id none = false
is_transaction transaction_id (some k) = k == transaction_id

-- An item of the report for the transaction.
abbrev pub is_item_for : ℕ → ℕ → ExpenseItem → Bool
is_item_for report_id transaction_id i =
    i.report_id == report_id && is_transaction transaction_id i.card_transaction_id

-- `_assert_usable_transaction`
unfoldable pub assert_usable_transaction : ExpenseReport → ℕ → Db → Result CardTransaction
assert_usable_transaction report transaction_id db =
    elim (first
      (λ (t : CardTransaction).
        t.id == transaction_id && is_card_of report.user_id db t && not t.is_cancelled)
      db.card_transactions.rows) [
        | none ↦ err (validation_error "INVALID_TRANSACTION" (some "card_transaction_id"))
        | some transaction ↦
            if any (is_item_for report.id transaction_id) db.expense_items.rows
            then err (conflict_error "EXPENSE_ITEM_DUPLICATE" none)
            else ok transaction
      ]

-- The amount of a new item: its own, else that of its transaction, else a 400.
unfoldable pub item_amount : ExpenseReport → ExpenseItemCreate → Db → Result ℤ
item_amount report payload db = elim payload.card_transaction_id [
  | some transaction_id ↦ elim (assert_usable_transaction report transaction_id db) [
    | err e ↦ err e
    | ok transaction ↦ elim payload.amount_krw [
      | none ↦ ok transaction.amount_krw
      | some amount ↦ ok amount
    ]
  ]
  | none ↦ elim payload.amount_krw [
    | none ↦ err (validation_error "AMOUNT_REQUIRED" (some "amount_krw"))
    | some amount ↦ ok amount
  ]
]

abbrev pub new_item : ExpenseReport → ExpenseItemCreate → ℤ → ℕ → ExpenseItem
new_item report payload amount id = record {
  id = id;
  report_id = report.id;
  card_transaction_id = payload.card_transaction_id;
  expense_category_code = payload.expense_category_code;
  amount_krw = amount;
  memo = payload.memo;
  is_excluded = false;
  fund_center_code = payload.fund_center_code;
  cost_center_code = payload.cost_center_code;
}

-- Two rows that the unique (report_id, card_transaction_id) keeps apart.
abbrev pub is_duplicate : ExpenseItem → Db → Bool
is_duplicate item db = elim item.card_transaction_id [
  | none ↦ false
  | some transaction_id ↦ any (is_item_for item.report_id transaction_id) db.expense_items.rows
]

-- INSERT, which the unique (report_id, card_transaction_id) may refuse.
unfoldable pub insert_item : (ℕ → ExpenseItem) → Db → Result Db
insert_item build db =
    if is_duplicate (build db.expense_items.next_id) db
    then err (unexpected "IntegrityError")
    else ok (record db { expense_items = insert build db.expense_items })

unfoldable pub add_item : User → ℕ → ExpenseItemCreate → Service Answer
add_item user report_id payload = do
  report ← try_query (load_editable_report user report_id)
  try_query (
      validate_codes
        (("EXPENSE_CATEGORY", "expense_category_code", some payload.expense_category_code) ∷ []))
  try_query (assert_fund_center_if payload.fund_center_code)
  try_query (assert_cost_center_if payload.cost_center_code)
  amount ← try_query (item_amount report payload)
  lift (assert_item_amount amount)
  try_flush (insert_item (new_item report payload amount))
  saved ← try_query (recalc_total report)
  flush (save_report saved)
  commit
  query (build_detail saved)

-- A category that is sent and not null is checked.
unfoldable pub assert_category_if : Option String → Db → Result (Unit {0})
assert_category_if none db = ok tt
assert_category_if (some code) db =
    validate_codes (("EXPENSE_CATEGORY", "expense_category_code", some code) ∷ []) db

-- An amount that is sent and not null is checked.
unfoldable pub assert_amount_if : Option ℤ → Result (Unit {0})
assert_amount_if none = ok tt
assert_amount_if (some amount) = assert_item_amount amount

-- The assignments of an update and their flush: three of the columns may not become null.
unfoldable pub patch_item : ExpenseItemUpdate → ExpenseItem → Result ExpenseItem
patch_item payload item =
    elim (not_null (merged payload.expense_category_code item.expense_category_code)) [
      | err e ↦ err e
      | ok expense_category_code ↦ elim (not_null (merged payload.amount_krw item.amount_krw)) [
        | err e ↦ err e
        | ok amount_krw ↦ elim (not_null (merged payload.is_excluded item.is_excluded)) [
          | err e ↦ err e
          | ok is_excluded ↦ ok (record item {
            expense_category_code = expense_category_code;
            amount_krw = amount_krw;
            memo = assigned payload.memo item.memo;
            is_excluded = is_excluded;
            fund_center_code = assigned payload.fund_center_code item.fund_center_code;
            cost_center_code = assigned payload.cost_center_code item.cost_center_code;
          })
        ]
      ]
    ]

-- The changed object, flushed.
unfoldable pub save_item : ExpenseItem → Db → Db
save_item item db = record db { expense_items = put item db.expense_items }

unfoldable pub update_item : User → ℕ → ExpenseItemUpdate → Service Answer
update_item user item_id payload = do
  item ← try_query (load_item item_id)
  report ← try_query (load_editable_report user item.report_id)
  try_query (assert_category_if (sent payload.expense_category_code))
  try_query (assert_fund_center_if (sent payload.fund_center_code))
  try_query (assert_cost_center_if (sent payload.cost_center_code))
  lift (assert_amount_if (sent payload.amount_krw))
  changed ← lift (patch_item payload item)
  flush (save_item changed)
  saved ← try_query (recalc_total report)
  flush (save_report saved)
  commit
  query (build_detail saved)

-- `session.delete(item)`, flushed.
unfoldable pub remove_item : ExpenseItem → Db → Db
remove_item item db = record db { expense_items = delete item.id db.expense_items }

unfoldable pub delete_item : User → ℕ → Service Answer
delete_item user item_id = do
  item ← try_query (load_item item_id)
  report ← try_query (load_editable_report user item.report_id)
  flush (remove_item item)
  saved ← try_query (recalc_total report)
  flush (save_report saved)
  commit
  query (build_detail saved)
