-- ===== src/Expense/Totals/Keeps.antt =====
-- Every request on reports and items keeps the totals.
use skon_biztrip_web.Base.{
  ℕ, pos, ◌≡◌, ◌≢◌, refl, ◌<◌, ◌+◌, Option, none, some, List, [], ◌∷◌, All, arith, ◌==◌,
  if◌then◌else◌, Bool-cases, inl, inr,
}
use skon_biztrip_web.Db.Table.{Table, get, put, insert, delete, find_row, put_row, delete_row}
use skon_biztrip_web.Db.Table.Laws.{replaced, get-ident, get-put, get-insert, All-put, All-get}
use skon_biztrip_web.Db.Rows.{
  ExpenseReport, ExpenseItem, expense_report_entity, expense_item_entity,
}
use skon_biztrip_web.Expense.Rules.Laws.{total}
use skon_biztrip_web.Expense.View.{amounts_of}
use skon_biztrip_web.Expense.Totals.{Shows, Agree}

module _ (k : ℕ) (old : ExpenseItem) (other : old.report_id ≢ k) where
  amounts_of-put_row :
      (new : ExpenseItem) (rows : List ExpenseItem)
      → new.report_id ≡ old.report_id
      → find_row new.id rows ≡ some old
      → amounts_of k (put_row new rows) ≡ amounts_of k rows
  amounts_of-put_row new [] same h = refl
  amounts_of-put_row new (i ∷ rows) same h = ground (arith, amounts_of-put_row new rows same)

  amounts_of-delete_row :
      (j : ℕ) (rows : List ExpenseItem)
      → find_row j rows ≡ some old
      → amounts_of k (delete_row j rows) ≡ amounts_of k rows
  amounts_of-delete_row j [] h = refl
  amounts_of-delete_row j (i ∷ rows) h = ground (arith, amounts_of-delete_row j rows)

module _ (reports : Table ExpenseReport) (items items' : Table ExpenseItem)
    (r r' : ExpenseReport) where
  shown :
      (k : ℕ) (found : Option ExpenseReport)
      → get k reports ≡ found
      → get r.id reports ≡ some r
      → r'.id ≡ r.id
      → r'.total_amount_krw ≡ total (amounts_of r.id items'.rows)
      → ((j : ℕ) → r.id ≢ j → amounts_of j items'.rows ≡ amounts_of j items.rows)
      → Shows found items
      → Shows (replaced (r'.id == k) r' found) items'
  shown k none at_k at_r same new others h = tt
  shown k (some x) at_k at_r same new others h = elim (Bool-cases (r'.id == k)) [
    | inl here ↦ rw here (rw same new)
    | inr there ↦
        let ident : x.id ≡ k = get-ident k reports x at_k in
        rw there (rw (others x.id (ground arith)) h)
  ]

  -- Saving one report with the total of its items keeps the totals, where the items of other reports
  -- are as they were.
  pub put-Agree :
      Agree reports items
      → get r.id reports ≡ some r
      → r'.id ≡ r.id
      → r'.total_amount_krw ≡ total (amounts_of r.id items'.rows)
      → ((j : ℕ) → r.id ≢ j → amounts_of j items'.rows ≡ amounts_of j items.rows)
      → All (λ (i : ExpenseItem). i.report_id < reports.next_id) items'.rows
      → Agree (put r' reports) items'
  unfolding put
  put-Agree a at_r same new others owned = record {
    shows = λ k. rw (get-put k r' reports) (shown k _ refl at_r same new others (a.shows k));
    numbered =
        All-put IsNumbered r' reports a.numbered
          (rw same (All-get IsNumbered r.id reports r a.numbered at_r));
    owned = owned;
  }
    where
      IsNumbered : ExpenseReport → Type 0
      IsNumbered x = x.id < reports.next_id

amounts_of-fresh :
    (n : ℕ) (rows : List ExpenseItem)
    → All (λ (i : ExpenseItem). i.report_id < n) rows
    → amounts_of n rows ≡ []
amounts_of-fresh n [] h = refl
amounts_of-fresh n (i ∷ rows) h = ground (arith, amounts_of-fresh n rows)

numbered_suc :
    (n : ℕ) (rows : List ExpenseReport)
    → All (λ (r : ExpenseReport). r.id < n) rows
    → All (λ (r : ExpenseReport). r.id < n + 1) rows
numbered_suc n [] h = tt
numbered_suc n (r ∷ rows) h = (omega arith, numbered_suc n rows h.1)

owned_suc :
    (n : ℕ) (rows : List ExpenseItem)
    → All (λ (i : ExpenseItem). i.report_id < n) rows
    → All (λ (i : ExpenseItem). i.report_id < n + 1) rows
owned_suc n [] h = tt
owned_suc n (i ∷ rows) h = (omega arith, owned_suc n rows h.1)

module _ (reports : Table ExpenseReport) (items : Table ExpenseItem)
    (build : ℕ → ExpenseReport) where
  shown_insert :
      (k : ℕ)
      → All (λ (i : ExpenseItem). i.report_id < reports.next_id) items.rows
      → (build reports.next_id).id ≡ reports.next_id
      → (build reports.next_id).total_amount_krw ≡ pos 0
      → Shows (get k reports) items
      → Shows (if reports.next_id == k then some (build reports.next_id) else get k reports) items
  shown_insert k owned ident zero h = elim (Bool-cases (reports.next_id == k)) [
    | inl here ↦ rw here (rw ident (rw (amounts_of-fresh reports.next_id items.rows owned) zero))
    | inr there ↦ rw there h
  ]

  -- A new report starts at 0 and has no items.
  pub insert-Agree :
      Agree reports items
      → (build reports.next_id).id ≡ reports.next_id
      → (build reports.next_id).total_amount_krw ≡ pos 0
      → Agree (insert build reports) items
  unfolding insert
  insert-Agree a ident zero = record {
    shows =
        λ k. rw (get-insert k build reports ident) (shown_insert k a.owned ident zero (a.shows k));
    numbered = (ground arith, numbered_suc reports.next_id reports.rows a.numbered);
    owned = owned_suc reports.next_id items.rows a.owned;
  }

-- A change of one item of the report `r` leaves the amounts of the other reports.
module _ (items : Table ExpenseItem) (j : ℕ) where
  pub amounts_of-insert :
      (build : ℕ → ExpenseItem)
      → (build items.next_id).report_id ≢ j
      → amounts_of j (insert build items).rows ≡ amounts_of j items.rows
  unfolding insert
  amounts_of-insert build other = ground arith

  pub amounts_of-put :
      (i i' : ExpenseItem)
      → get i'.id items ≡ some i
      → i'.report_id ≡ i.report_id
      → i.report_id ≢ j
      → amounts_of j (put i' items).rows ≡ amounts_of j items.rows
  unfolding get put
  amounts_of-put i i' found same other = amounts_of-put_row j i other i' items.rows same found

  pub amounts_of-delete :
      (k : ℕ) (i : ExpenseItem)
      → get k items ≡ some i
      → i.report_id ≢ j
      → amounts_of j (delete k items).rows ≡ amounts_of j items.rows
  unfolding get delete
  amounts_of-delete k i found other = amounts_of-delete_row j i other k items.rows found
