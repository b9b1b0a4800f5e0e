-- ===== src/Expense/Candidates.antt =====
-- The query for the candidates of a report (backend/app/services/expenses.py). The Korean date of an
-- instant and the instant at which a UTC day begins are parameters.
use skon_biztrip_web.Base.{
  ℕ, ℤ, ◌+◌, ◌-◌, String, Bool, true, false, not, ◌&&◌, ◌||◌, Option, none, some, List, [], ◌∷◌,
  map, any, first, select, leb, ltb, ◌==◌, if◌then◌else◌,
}
use skon_biztrip_web.Enums.{ExpenseReportStatus}
use skon_biztrip_web.Errors.{Result, ok, err, unexpected, ◌>>=◌, ◌>>◌}
use skon_biztrip_web.Db.Table.{get}
use skon_biztrip_web.Db.Rows.{
  User, Trip, CorporateCard, CardTransaction, ExpenseReport, ExpenseItem, trip_entity,
  expense_report_entity,
}
use skon_biztrip_web.Db.Session.{Db}
use skon_biztrip_web.Matching.{TransactionView, MatchCandidate, max_ordinal, find_candidates}
use skon_biztrip_web.Expense.View.{load_visible_report}

pub record MatchCandidateOut : Type 0 where
  pub transaction_id : ℕ
  pub approved_at : ℕ
  pub merchant_name : String
  pub merchant_category_code : String
  pub amount_krw : ℤ
  pub suggested_category_code : String
  pub reasons : List String
  pub already_added : Bool

-- `_FETCH_MARGIN_DAYS`
abbrev pub fetch_margin_days : ℕ
fetch_margin_days = 2

-- A report without its trip is an AttributeError at `trip.start_date`.
abbrev pub required_trip : Option Trip → Result Trip
required_trip none = err (unexpected "AttributeError")
required_trip (some trip) = ok trip

-- The two `timedelta`s of the query must stay within the dates.
abbrev pub assert_fetch_window : Trip → Result (Unit {0})
assert_fetch_window trip =
    if leb trip.start_date fetch_margin_days
      || ltb max_ordinal (trip.end_date + fetch_margin_days + 1)
    then err (unexpected "OverflowError")
    else ok tt

-- The card of the transaction is the report's owner's.
abbrev pub is_of : ℕ → List CorporateCard → CardTransaction → Bool
is_of user_id cards row =
    any (λ (c : CorporateCard). c.id == row.card_id && c.user_id == user_id) cards

-- `SUBMITTED` or `APPROVED`
abbrev pub is_locking : ExpenseReportStatus → Bool
is_locking ExpenseReportStatus.submitted = true
is_locking ExpenseReportStatus.approved = true
is_locking _ = false

-- The report of the item is another one and locks it.
abbrev pub is_locked_by : ℕ → Option ExpenseReport → Bool
is_locked_by report_id none = false
is_locked_by report_id (some other) = not (other.id == report_id) && is_locking other.status

-- The transactions of the items that satisfy `p`, which are not null.
abbrev pub claimed_by : (ExpenseItem → Bool) → List ExpenseItem → List ℕ
claimed_by p [] = []
claimed_by p (i ∷ items) =
    let rest = claimed_by p items in
    elim i.card_transaction_id [
      | none ↦ rest
      | some transaction_id ↦ if p i then transaction_id ∷ rest else rest
    ]

unfoldable pub locked : ExpenseReport → Db → List ℕ
locked report db =
    claimed_by (λ (i : ExpenseItem). is_locked_by report.id (get i.report_id db.expense_reports))
      db.expense_items.rows

unfoldable pub added : ExpenseReport → Db → List ℕ
added report db = claimed_by (λ (i : ExpenseItem). i.report_id == report.id) db.expense_items.rows

abbrev pub view_of : CardTransaction → TransactionView
view_of row = record {
  id = row.id;
  approved_at = row.approved_at;
  merchant_category_code = row.merchant_category_code;
  amount_krw = row.amount_krw;
  is_cancelled = row.is_cancelled;
}

-- `by_id[candidate.transaction_id]`
abbrev pub by_id : ℕ → List CardTransaction → Result CardTransaction
by_id transaction_id rows =
    elim (first (λ (row : CardTransaction). row.id == transaction_id) rows) [
      | none ↦ err (unexpected "KeyError")
      | some row ↦ ok row
    ]

abbrev pub candidate_out : MatchCandidate → CardTransaction → List ℕ → MatchCandidateOut
candidate_out candidate row added_ids = record {
  transaction_id = candidate.transaction_id;
  approved_at = row.approved_at;
  merchant_name = row.merchant_name;
  merchant_category_code = row.merchant_category_code;
  amount_krw = row.amount_krw;
  suggested_category_code = candidate.suggested_category_code;
  reasons = candidate.reasons;
  already_added = any (λ (i : ℕ). i == candidate.transaction_id) added_ids;
}

-- The comprehension at the end.
pub candidates_out :
    List MatchCandidate → List CardTransaction → List ℕ → Result (List MatchCandidateOut)
candidates_out [] rows added_ids = ok []
candidates_out (c ∷ candidates) rows added_ids = do
  row ← by_id c.transaction_id rows
  rest ← candidates_out candidates rows added_ids
  ok (candidate_out c row added_ids ∷ rest)

module _ (kst_date : ℕ → ℕ) (utc_midnight : ℕ → ℕ) where
  -- The first query.
  unfoldable pub fetched : ExpenseReport → Trip → Db → List CardTransaction
  fetched report trip db =
      select
        (λ (row : CardTransaction).
          is_of report.user_id db.corporate_cards.rows row
          && leb (utc_midnight (trip.start_date - fetch_margin_days)) row.approved_at
          && ltb row.approved_at (utc_midnight (trip.end_date + (fetch_margin_days + 1))))
        db.card_transactions.rows

  unfoldable pub list_match_candidates : User → ℕ → Db → Result (List MatchCandidateOut)
  list_match_candidates user report_id db = do
    report ← load_visible_report report_id user db
    trip ← required_trip (get report.trip_id db.trips)
    assert_fetch_window trip
    candidates ←
        find_candidates kst_date trip.start_date trip.end_date
          (map view_of (fetched report trip db)) (locked report db)
    candidates_out candidates (fetched report trip db) (added report db)
