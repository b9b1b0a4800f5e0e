-- ===== src/Expense/Totals.antt =====
-- What holds of every stored report between two requests: it shows the total of its items.
pub mod Keeps
pub mod Requests
use skon_biztrip_web.Base.{ℕ, ◌≡◌, ◌<◌, Option, none, some, All}
use skon_biztrip_web.Db.Table.{Table, get}
use skon_biztrip_web.Db.Rows.{ExpenseReport, ExpenseItem, expense_report_entity}
use skon_biztrip_web.Db.Session.{Db}
use skon_biztrip_web.Expense.Rules.Laws.{total}
use skon_biztrip_web.Expense.View.{amounts_of}

-- The report that a lookup finds, if any, shows the sum over its items that are not excluded.
abbrev pub Shows : Option ExpenseReport → Table ExpenseItem → Type 0
Shows none items = Unit
Shows (some r) items = r.total_amount_krw ≡ total (amounts_of r.id items.rows)

-- Keys come from the sequence, and items name reports that were numbered.
pub record Agree (reports : Table ExpenseReport) (items : Table ExpenseItem) : Type 0 where
  pub shows : (k : ℕ) → Shows (get k reports) items
  pub numbered : All (λ (r : ExpenseReport). r.id < reports.next_id) reports.rows
  pub owned : All (λ (i : ExpenseItem). i.report_id < reports.next_id) items.rows

abbrev pub TotalsAgree : Db → Type 0
TotalsAgree db = Agree db.expense_reports db.expense_items
