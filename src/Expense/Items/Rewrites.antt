-- ===== src/Expense/Items/Rewrites.antt =====
-- What a change of an item writes into its row (backend/app/services/expenses.py).
use skon_biztrip_web.Base.{
  ℤ, String, pos, ◌≤ℤ◌, ◌≡◌, true, ◌&&◌, Option, none, some, List, [], ◌∷◌, map, any, select,
  str_eq, arith,
}
use skon_biztrip_web.Errors.{ok}
use skon_biztrip_web.Patch.{Patch, merged, assigned, sent, not_null}
use skon_biztrip_web.Codes.Laws.{is_code, validate_codes-codes}
use skon_biztrip_web.Centers.{
  load_active_center_codes, assert_center_code, assert_fund_center, assert_cost_center,
}
use skon_biztrip_web.Db.Table.{Table}
use skon_biztrip_web.Db.Rows.{Center, ExpenseItem, expense_report_entity, expense_item_entity}
use skon_biztrip_web.Db.Session.{Db}
use skon_biztrip_web.Expense.Rules.{max_item_amount}
use skon_biztrip_web.Expense.Rules.Laws.{assert_item_amount-bounds}
use skon_biztrip_web.Expense.Edit.{assert_fund_center_if, assert_cost_center_if}
use skon_biztrip_web.Expense.Items.{
  ExpenseItemUpdate, assert_category_if, assert_amount_if, patch_item,
}

-- What a sent field makes of a column that is never null, and of one that may be.
abbrev pub Becomes : {A : Type 0} → Patch A → A → A → Type 0
Becomes Patch.unset old new = new ≡ old
Becomes Patch.null old new = ⊥
Becomes (Patch.value sent_value) old new = new ≡ sent_value

abbrev pub BecomesOption : {A : Type 0} → Patch A → Option A → Option A → Type 0
BecomesOption Patch.unset old new = new ≡ old
BecomesOption Patch.null old new = new ≡ none
BecomesOption (Patch.value sent_value) old new = new ≡ some sent_value

-- A value that was sent has the property.
abbrev pub IfSent : {A : Type 0} → (A → Type 0) → Patch A → Type 0
IfSent P Patch.unset = Unit
IfSent P Patch.null = Unit
IfSent P (Patch.value sent_value) = P sent_value

-- One of the centres has the code and is active.
abbrev pub HasCenter : Table Center → String → Type 0
HasCenter centers code = any (λ (c : Center). str_eq code c.code && c.is_active) centers.rows ≡ true

-- The item has what the client sent, and the old values of what it did not send: a category that is an
-- active code, an amount in range, centres that are active.
pub record Rewritten (payload : ExpenseItemUpdate) (db : Db) (i i' : ExpenseItem) : Type 0 where
  pub category :
      Becomes payload.expense_category_code i.expense_category_code i'.expense_category_code
  pub amount : Becomes payload.amount_krw i.amount_krw i'.amount_krw
  pub memo : BecomesOption payload.memo i.memo i'.memo
  pub excluded : Becomes payload.is_excluded i.is_excluded i'.is_excluded
  pub fund_center : BecomesOption payload.fund_center_code i.fund_center_code i'.fund_center_code
  pub cost_center : BecomesOption payload.cost_center_code i.cost_center_code i'.cost_center_code
  pub valid_category :
      IfSent
        (λ (code : String).
          is_code db ("EXPENSE_CATEGORY", "expense_category_code", some code) ≡ true)
        payload.expense_category_code
  pub valid_amount : IfSent (λ (a : ℤ). (pos 0 ≤ℤ a) × (a ≤ℤ max_item_amount)) payload.amount_krw
  pub valid_fund_center : IfSent (HasCenter db.fund_centers) payload.fund_center_code
  pub valid_cost_center : IfSent (HasCenter db.cost_centers) payload.cost_center_code

Becomes-merged :
    {A : Type 0} (sent_field : Patch A) (old new : A)
    → not_null (merged sent_field old) ≡ ok new
    → Becomes sent_field old new
unfolding merged
Becomes-merged Patch.unset old new h = ground arith
Becomes-merged Patch.null old new h = absurd (ground arith)
Becomes-merged (Patch.value v) old new h = ground arith

BecomesOption-assigned :
    {A : Type 0} (sent_field : Patch A) (old new : Option A)
    → new ≡ assigned sent_field old
    → BecomesOption sent_field old new
BecomesOption-assigned Patch.unset old new h = h
BecomesOption-assigned Patch.null old new h = h
BecomesOption-assigned (Patch.value v) old new h = h

patch_item-values :
    (payload : ExpenseItemUpdate) (i i' : ExpenseItem)
    → patch_item payload i ≡ ok i'
    → (not_null (merged payload.expense_category_code i.expense_category_code)
        ≡ ok i'.expense_category_code)
      × (not_null (merged payload.amount_krw i.amount_krw) ≡ ok i'.amount_krw)
      × (not_null (merged payload.is_excluded i.is_excluded) ≡ ok i'.is_excluded)
      × (i'.memo ≡ assigned payload.memo i.memo)
      × (i'.fund_center_code ≡ assigned payload.fund_center_code i.fund_center_code)
      × (i'.cost_center_code ≡ assigned payload.cost_center_code i.cost_center_code)
unfolding patch_item
patch_item-values payload i i' h = ground arith

valid_category_if :
    (sent_field : Patch String) (db : Db)
    → assert_category_if (sent sent_field) db ≡ ok tt
    → IfSent
        (λ (code : String).
          is_code db ("EXPENSE_CATEGORY", "expense_category_code", some code) ≡ true)
        sent_field
unfolding assert_category_if
valid_category_if Patch.unset db h = tt
valid_category_if Patch.null db h = tt
valid_category_if (Patch.value code) db h =
    (validate_codes-codes (("EXPENSE_CATEGORY", "expense_category_code", some code) ∷ []) db h).0

valid_amount_if :
    (sent_field : Patch ℤ)
    → assert_amount_if (sent sent_field) ≡ ok tt
    → IfSent (λ (a : ℤ). (pos 0 ≤ℤ a) × (a ≤ℤ max_item_amount)) sent_field
unfolding assert_amount_if
valid_amount_if Patch.unset h = tt
valid_amount_if Patch.null h = tt
valid_amount_if (Patch.value a) h = assert_item_amount-bounds a h

is_in-HasCenter :
    (code : String) (centers : List Center)
    → any
        (str_eq code)
        (map (λ (c : Center). c.code) (select (λ (c : Center). c.is_active) centers))
      ≡ true
    → any (λ (c : Center). str_eq code c.code && c.is_active) centers ≡ true
is_in-HasCenter code [] h = h
is_in-HasCenter code (c ∷ centers) h = ground (arith, is_in-HasCenter code centers)

valid_fund_if :
    (sent_field : Patch String) (db : Db)
    → assert_fund_center_if (sent sent_field) db ≡ ok tt
    → IfSent (HasCenter db.fund_centers) sent_field
unfolding assert_fund_center_if assert_fund_center assert_center_code load_active_center_codes
valid_fund_if Patch.unset db h = tt
valid_fund_if Patch.null db h = tt
valid_fund_if (Patch.value code) db h = is_in-HasCenter code db.fund_centers.rows (ground arith)

valid_cost_if :
    (sent_field : Patch String) (db : Db)
    → assert_cost_center_if (sent sent_field) db ≡ ok tt
    → IfSent (HasCenter db.cost_centers) sent_field
unfolding assert_cost_center_if assert_cost_center assert_center_code load_active_center_codes
valid_cost_if Patch.unset db h = tt
valid_cost_if Patch.null db h = tt
valid_cost_if (Patch.value code) db h = is_in-HasCenter code db.cost_centers.rows (ground arith)

-- The checks of an update and its assignments.
module _ (payload : ExpenseItemUpdate) (db : Db) (i i' : ExpenseItem) where
  pub rewritten :
      assert_category_if (sent payload.expense_category_code) db ≡ ok tt
      → assert_fund_center_if (sent payload.fund_center_code) db ≡ ok tt
      → assert_cost_center_if (sent payload.cost_center_code) db ≡ ok tt
      → assert_amount_if (sent payload.amount_krw) ≡ ok tt
      → patch_item payload i ≡ ok i'
      → Rewritten payload db i i'
  rewritten category fund cost amount patched =
      let (new_category, new_amount, new_excluded, new_memo, new_fund, new_cost) =
        patch_item-values payload i i' patched in
      record {
        category = Becomes-merged payload.expense_category_code _ _ new_category;
        amount = Becomes-merged payload.amount_krw _ _ new_amount;
        memo = BecomesOption-assigned payload.memo _ _ new_memo;
        excluded = Becomes-merged payload.is_excluded _ _ new_excluded;
        fund_center = BecomesOption-assigned payload.fund_center_code _ _ new_fund;
        cost_center = BecomesOption-assigned payload.cost_center_code _ _ new_cost;
        valid_category = valid_category_if payload.expense_category_code db category;
        valid_amount = valid_amount_if payload.amount_krw amount;
        valid_fund_center = valid_fund_if payload.fund_center_code db fund;
        valid_cost_center = valid_cost_if payload.cost_center_code db cost;
      }
