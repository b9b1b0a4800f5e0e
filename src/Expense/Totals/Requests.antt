-- ===== src/Expense/Totals/Requests.antt =====
-- Each effect of a request keeps the totals.
use skon_biztrip_web.Base.{ℕ, ◌≡◌, ◌≢◌, refl, ◌<◌, ◌∙◌, some, All, ap}
use skon_biztrip_web.Clock.{Clock}
use skon_biztrip_web.Db.Table.{Table, get}
use skon_biztrip_web.Db.Table.Laws.{get-ident, All-get, All-put, All-delete, All-insert}
use skon_biztrip_web.Db.Rows.{
  User, ExpenseReport, ExpenseItem, expense_report_entity, expense_item_entity,
}
use skon_biztrip_web.Db.Session.{Db}
use skon_biztrip_web.Trip.Flow.{save_trip}
use skon_biztrip_web.Expense.Rules.Laws.{total}
use skon_biztrip_web.Expense.View.{amounts_of}
use skon_biztrip_web.Expense.Edit.{Answer, ExpenseReportUpdate, save_report}
use skon_biztrip_web.Expense.Edit.Effects.{Opened, Edited}
use skon_biztrip_web.Expense.Items.{ExpenseItemCreate, ExpenseItemUpdate}
use skon_biztrip_web.Expense.Items.Effects.{Retotaled, Added, Changed, Removed}
use skon_biztrip_web.Expense.Flow.{ReportCommand}
use skon_biztrip_web.Expense.Flow.Spec.{Step, Moved, Followed}
use skon_biztrip_web.Expense.Totals.{TotalsAgree}
use skon_biztrip_web.Expense.Totals.Keeps.{
  put-Agree, insert-Agree, amounts_of-insert, amounts_of-put, amounts_of-delete,
}

-- A found report, under its own key.
under_ident :
    (k : ℕ) (reports : Table ExpenseReport) (r : ExpenseReport)
    → get k reports ≡ some r
    → get r.id reports ≡ some r
under_ident k reports r found = ap (λ j. get j reports) (get-ident k reports r found) ∙ found

-- A report's key is one that was handed out.
is_numbered :
    (k : ℕ) (db : Db) (r : ExpenseReport)
    → TotalsAgree db
    → get k db.expense_reports ≡ some r
    → r.id < db.expense_reports.next_id
is_numbered k db r a found =
    All-get (λ (r : ExpenseReport). r.id < db.expense_reports.next_id) k db.expense_reports r
      a.numbered found

module _ (user : User) (k : ℕ) (r : ExpenseReport) (items : Table ExpenseItem) (db db' : Db) where
  Retotaled-totals :
      TotalsAgree db
      → Retotaled user k r items db db'
      → ((j : ℕ) → r.id ≢ j → amounts_of j items.rows ≡ amounts_of j db.expense_items.rows)
      → All (λ (i : ExpenseItem). i.report_id < db.expense_reports.next_id) items.rows
      → TotalsAgree db'
  Retotaled-totals a h others owned = rw h.stored (
      put-Agree db.expense_reports db.expense_items items r _ a
        (under_ident k db.expense_reports r h.found) refl refl others owned)

pub Added-totals :
    (user : User) (k : ℕ) (payload : ExpenseItemCreate) (db : Db) (answer : Answer) (db' : Db)
    → TotalsAgree db
    → Added user k payload db answer db'
    → TotalsAgree db'
Added-totals user k payload db answer db' a (r, amount, low, high, unused, h) =
    Retotaled-totals user k r _ db db' a h (λ j other. amounts_of-insert db.expense_items j _ other)
      (All-insert (λ (i : ExpenseItem). i.report_id < db.expense_reports.next_id) _ db.expense_items
        a.owned (is_numbered k db r a h.found))

pub Changed-totals :
    (user : User) (k : ℕ) (payload : ExpenseItemUpdate) (db : Db) (answer : Answer) (db' : Db)
    → TotalsAgree db
    → Changed user k payload db answer db'
    → TotalsAgree db'
Changed-totals user k payload db answer db' a (r, i, i', found, ident, report, transaction, h, _) =
    let owner : r.id ≡ i.report_id = get-ident i.report_id db.expense_reports r h.found in
    let own : i.id ≡ k = get-ident k db.expense_items i found in
    Retotaled-totals user i.report_id r _ db db' a h
      (λ j other.
        amounts_of-put db.expense_items j i i' (rw (ident ∙ own) found) report (rw (← owner) other))
      (All-put (λ (i : ExpenseItem). i.report_id < db.expense_reports.next_id) i' db.expense_items
        a.owned
        (rw report (
          All-get (λ (i : ExpenseItem). i.report_id < db.expense_reports.next_id) k db.expense_items
            i a.owned found)))

pub Removed-totals :
    (user : User) (k : ℕ) (db : Db) (answer : Answer) (db' : Db)
    → TotalsAgree db
    → Removed user k db answer db'
    → TotalsAgree db'
Removed-totals user k db answer db' a (r, i, found, h) =
    let owner : r.id ≡ i.report_id = get-ident i.report_id db.expense_reports r h.found in
    Retotaled-totals user i.report_id r _ db db' a h
      (λ j other. amounts_of-delete db.expense_items j k i found (rw (← owner) other))
      (All-delete (λ (i : ExpenseItem). i.report_id < db.expense_reports.next_id) k db.expense_items
        a.owned)

-- Saving a report under its key and with its total.
save_report-totals :
    (k : ℕ) (db : Db) (r r' : ExpenseReport)
    → TotalsAgree db
    → get k db.expense_reports ≡ some r
    → r'.id ≡ r.id
    → r'.total_amount_krw ≡ total (amounts_of r.id db.expense_items.rows)
    → TotalsAgree (save_report r' db)
unfolding save_report
save_report-totals k db r r' a found same shown =
    put-Agree db.expense_reports db.expense_items db.expense_items r r' a
      (under_ident k db.expense_reports r found) same shown (λ j other. refl) a.owned

-- The total that a stored report shows.
shown :
    (k : ℕ) (db : Db) (r : ExpenseReport)
    → TotalsAgree db
    → get k db.expense_reports ≡ some r
    → r.total_amount_krw ≡ total (amounts_of r.id db.expense_items.rows)
shown k db r a found = rw found at (a.shows k)

pub Opened-totals :
    (user : User) (trip_id : ℕ) (db : Db) (answer : Answer) (db' : Db)
    → TotalsAgree db
    → Opened user trip_id db answer db'
    → TotalsAgree db'
Opened-totals user trip_id db answer db' a (t, report_no, found, own, status, unused, recorded) =
    rw recorded.expense_reports
      (rw recorded.expense_items (insert-Agree db.expense_reports db.expense_items _ a refl refl))

pub Edited-totals :
    (user : User) (k : ℕ) (payload : ExpenseReportUpdate) (db : Db) (answer : Answer) (db' : Db)
    → TotalsAgree db
    → Edited user k payload db answer db'
    → TotalsAgree db'
Edited-totals user k payload db answer db' a (r, found, own, status, recorded) =
    rw recorded.expense_reports
      (rw recorded.expense_items (save_report-totals k db r _ a found refl (shown k db r a found)))

-- A step keeps the key of a report, and its total is the one that it shows.
Step-totals :
    (k : ℕ) {clock : Clock} {user : User} (db : Db) {command : ReportCommand} {r r' : ExpenseReport}
    → TotalsAgree db
    → get k db.expense_reports ≡ some r
    → Step clock user db command r r'
    → (r'.id ≡ r.id) × (r'.total_amount_krw ≡ total (amounts_of r.id db.expense_items.rows))
Step-totals k db a found
      (Step.submit r t approver from own at_trip completed approved filled bounded) =
    (refl, refl)
Step-totals k db a found (Step.approve r t from own at_trip completed) =
    (refl, shown k db r a found)
Step-totals k db a found (Step.reject r reason from own filled) = (refl, shown k db r a found)
Step-totals k db a found (Step.reopen r from own) = (refl, shown k db r a found)

Followed-totals :
    (user : User) (command : ReportCommand) (r : ExpenseReport) (mid db' : Db)
    → TotalsAgree mid
    → Followed user command r mid db'
    → TotalsAgree db'
unfolding save_trip
Followed-totals user ReportCommand.submit r mid db' a same = rw same a
Followed-totals user ReportCommand.approve r mid db' a (t, found, completed, recorded) =
    rw recorded.expense_reports (rw recorded.expense_items a)
Followed-totals user (ReportCommand.reject reason) r mid db' a same = rw same a
Followed-totals user ReportCommand.reopen r mid db' a same = rw same a

pub Moved-totals :
    (clock : Clock) (user : User) (k : ℕ) (command : ReportCommand) (db : Db) (answer : Answer)
    (db' : Db)
    → TotalsAgree db
    → Moved clock user k command db answer db'
    → TotalsAgree db'
Moved-totals clock user k command db answer db' a (r, r', mid, found, step, recorded, followed) =
    let (ident, new) = Step-totals k db a found step in
    Followed-totals user command r mid db'
      (rw recorded.expense_reports
        (rw recorded.expense_items (save_report-totals k db r r' a found ident new)))
      followed
