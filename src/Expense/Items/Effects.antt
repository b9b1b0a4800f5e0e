-- ===== src/Expense/Items/Effects.antt =====
-- What adding, changing and deleting an item does to the database.
use skon_biztrip_web.Base.{ℕ, ℤ, pos, ◌≤ℤ◌, ◌≡◌, refl, ◌⊎◌, false, some, arith}
use skon_biztrip_web.Enums.{ExpenseReportStatus}
use skon_biztrip_web.Errors.{ok}
use skon_biztrip_web.Db.Table.{Table, get, put, insert, delete}
use skon_biztrip_web.Db.Table.Laws.{get-ident}
use skon_biztrip_web.Db.Rows.{
  User, ExpenseReport, ExpenseItem, expense_report_entity, expense_item_entity,
}
use skon_biztrip_web.Db.Session.{Db, handle}
use skon_biztrip_web.Db.Session.Ends.{
  Ensures, Ends-handle, Ends-query, Ends-flush, Ends-try_flush, Ends-commit, Ends-lift,
  Ends-try_query,
}
use skon_biztrip_web.Expense.Rules.{max_item_amount, max_report_total}
use skon_biztrip_web.Expense.Rules.Laws.{
  total, assert_report_owner-eq, assert_report_editable-status, assert_item_amount-bounds,
}
use skon_biztrip_web.Expense.View.{recalc_total, amounts_of}
use skon_biztrip_web.Expense.Edit.{Answer, save_report}
use skon_biztrip_web.Expense.Flow.Refines.{load_visible_report-get, recalc_total-total}
use skon_biztrip_web.Expense.Items.Rewrites.{Rewritten, rewritten}
use skon_biztrip_web.Expense.Items.{
  ExpenseItemCreate, ExpenseItemUpdate, load_editable_report, load_item, new_item, is_duplicate,
  insert_item, patch_item, save_item, remove_item, add_item, update_item, delete_item,
}

-- The user's own report `k`, a draft or rejected, and in `db'` the items `items` with its total over
-- them and within the limit; the rest as in `db`.
pub record Retotaled (user : User) (k : ℕ) (r : ExpenseReport) (items : Table ExpenseItem)
    (db db' : Db) : Type 0 where
  pub found : get k db.expense_reports ≡ some r
  pub owner : user.id ≡ r.user_id
  pub editable : (r.status ≡ ExpenseReportStatus.draft) ⊎ (r.status ≡ ExpenseReportStatus.rejected)
  pub limit : total (amounts_of r.id items.rows) ≤ℤ max_report_total
  pub stored : db' ≡ record db {
    expense_items = items;
    expense_reports =
        put (record r { total_amount_krw = total (amounts_of r.id items.rows) }) db.expense_reports;
  }

-- One new item of the report, not excluded, for an amount in range; none of the report's items
-- stands for the same card transaction.
abbrev pub Added : User → ℕ → ExpenseItemCreate → Db → Answer → Db → Type 0
Added user k payload db answer db' =
    (r : ExpenseReport) × (amount : ℤ) × (pos 0 ≤ℤ amount)
    × (amount ≤ℤ max_item_amount)
    × (is_duplicate (new_item r payload amount db.expense_items.next_id) db ≡ false)
    × Retotaled user k r (insert (new_item r payload amount) db.expense_items) db db'

-- The item `k`, changed as the payload says, but for its key, its report and its card transaction.
abbrev pub Changed : User → ℕ → ExpenseItemUpdate → Db → Answer → Db → Type 0
Changed user k payload db answer db' =
    (r : ExpenseReport) × (i i' : ExpenseItem) × (get k db.expense_items ≡ some i)
    × (i'.id ≡ i.id)
    × (i'.report_id ≡ i.report_id)
    × (i'.card_transaction_id ≡ i.card_transaction_id)
    × Retotaled user i.report_id r (put i' db.expense_items) db db'
    × Rewritten payload db i i'

-- The item `k`, gone.
abbrev pub Removed : User → ℕ → Db → Answer → Db → Type 0
Removed user k db answer db' =
    (r : ExpenseReport) × (i : ExpenseItem) × (get k db.expense_items ≡ some i)
    × Retotaled user i.report_id r (delete k db.expense_items) db db'

module _ (user : User) (k : ℕ) (db : Db) (r : ExpenseReport) where
  pub load_editable_report-ok :
      load_editable_report user k db ≡ ok r
      → (get k db.expense_reports ≡ some r)
        × (user.id ≡ r.user_id)
        × ((r.status ≡ ExpenseReportStatus.draft) ⊎ (r.status ≡ ExpenseReportStatus.rejected))
  unfolding load_editable_report
  load_editable_report-ok h = (
    load_visible_report-get user k db r (ground arith),
    assert_report_owner-eq user.id r.user_id (ground arith),
    assert_report_editable-status r.status (ground arith),
  )

insert_item-ok :
    (build : ℕ → ExpenseItem) (db db' : Db)
    → insert_item build db ≡ ok db'
    → (is_duplicate (build db.expense_items.next_id) db ≡ false)
      × (db' ≡ record db { expense_items = insert build db.expense_items })
unfolding insert_item
insert_item-ok build db db' h = ground arith

load_item-get :
    (k : ℕ) (db : Db) (i : ExpenseItem) → load_item k db ≡ ok i → get k db.expense_items ≡ some i
unfolding load_item
load_item-get k db i h = ground arith

patch_item-ok :
    (payload : ExpenseItemUpdate) (i i' : ExpenseItem)
    → patch_item payload i ≡ ok i'
    → (i'.id ≡ i.id)
      × (i'.report_id ≡ i.report_id)
      × (i'.card_transaction_id ≡ i.card_transaction_id)
unfolding patch_item
patch_item-ok payload i i' h = ground arith

-- The end of each operation: the total over the items as they are now, saved.
retotaled :
    (user : User) (k : ℕ) (db : Db) (r saved : ExpenseReport) (items : Table ExpenseItem)
    → load_editable_report user k db ≡ ok r
    → recalc_total r (record db { expense_items = items }) ≡ ok saved
    → Retotaled user k r items db (save_report saved (record db { expense_items = items }))
unfolding save_report
retotaled user k db r saved items loaded recalc =
    let (found, own, edit) = load_editable_report-ok user k db r loaded in
    let (same, bounded) = recalc_total-total r saved _ recalc in
    record { found = found; owner = own; editable = edit; limit = bounded; stored = rw same refl }

pub add_item-Added :
    (user : User) (k : ℕ) (payload : ExpenseItemCreate) (db : Db)
    → Ensures db (Added user k payload db) (handle (add_item user k payload) db)
unfolding add_item
add_item-Added user k payload db = Ends-handle _ (
    Ends-try_query _ _ _ refl λ r loaded. Ends-try_query _ _ _ refl λ _ _.
      Ends-try_query _ _ _ refl λ _ _. Ends-try_query _ _ _ refl λ _ _.
        Ends-try_query _ _ _ refl λ amount _. Ends-lift _ _ _ refl λ _ valid.
          Ends-try_flush _ _ _ refl λ mid inserted. Ends-try_query _ _ _ refl λ saved recalc.
            Ends-flush _ _ _ (
              Ends-commit _ _ (
                Ends-query _ _ (
                  let (unused, same) = insert_item-ok (new_item r payload amount) db mid inserted in
                  let (low, high) = assert_item_amount-bounds amount valid in
                  (
                    r,
                    amount,
                    low,
                    high,
                    unused,
                    rw same (retotaled user k db r saved _ loaded (rw same at recalc)),
                  )))))

-- Changing an item is the owner's, on a draft or a rejected report: the item gets every value that was
-- sent, where a category must be an active code, an amount in range and a centre active, and keeps the
-- others, its key, its report and its card transaction; the report's total is computed over the items as
-- they are then, within the limit; or it answers an error that it raised before it stored anything.
pub update_item-Changed :
    (user : User) (k : ℕ) (payload : ExpenseItemUpdate) (db : Db)
    → Ensures db (Changed user k payload db) (handle (update_item user k payload) db)
unfolding update_item save_item
update_item-Changed user k payload db = Ends-handle _ (
    Ends-try_query _ _ _ refl λ i found. Ends-try_query _ _ _ refl λ r loaded.
      Ends-try_query _ _ _ refl λ _ category. Ends-try_query _ _ _ refl λ _ fund.
        Ends-try_query _ _ _ refl λ _ cost. Ends-lift _ _ _ refl λ _ amount.
          Ends-lift _ _ _ refl λ i' patched. Ends-flush _ _ _ (
            Ends-try_query _ _ _ refl λ saved recalc. Ends-flush _ _ _ (
              Ends-commit _ _ (
                Ends-query _ _ (
                  let (ident, report, transaction) = patch_item-ok payload i i' patched in
                  (
                    r,
                    i,
                    i',
                    load_item-get k db i found,
                    ident,
                    report,
                    transaction,
                    retotaled user i.report_id db r saved _ loaded recalc,
                    rewritten payload db i i' category fund cost amount patched,
                  ))))))

-- Deleting an item is the owner's, on a draft or a rejected report: the report's total is computed
-- over the items that are left; or it answers an error that it raised before it stored anything.
pub delete_item-Removed :
    (user : User) (k : ℕ) (db : Db)
    → Ensures db (Removed user k db) (handle (delete_item user k) db)
unfolding delete_item remove_item
delete_item-Removed user k db = Ends-handle _ (
    Ends-try_query _ _ _ refl λ i found. Ends-try_query _ _ _ refl λ r loaded. Ends-flush _ _ _ (
      Ends-try_query _ _ _ refl λ saved recalc. Ends-flush _ _ _ (
        Ends-commit _ _ (
          Ends-query _ _ (
            let stored = load_item-get k db i found in
            (
              r,
              i,
              stored,
              rw (← get-ident k db.expense_items i stored)
                  (retotaled user i.report_id db r saved _ loaded recalc),
            ))))))
