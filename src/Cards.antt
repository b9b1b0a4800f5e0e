-- ===== src/Cards.antt =====
-- A user's corporate cards and their transactions (backend/app/services/cards.py). The database's ILIKE
-- and the instant at which a Korean day begins, which the time zone database computes, are parameters.
pub mod Laws
use skon_biztrip_web.Base.{
  ℕ, ℤ, ◌+◌, String, Bool, true, false, not, ◌&&◌, ◌||◌, Option, none, some, List, [], ◌∷◌, map,
  any, select, length, join, str_eq, is_empty, leb, ltb, sort_by, ◌==◌, if◌then◌else◌,
}
use skon_biztrip_web.Errors.{Result, ok, err, unexpected}
use skon_biztrip_web.Db.Rows.{User, CorporateCard, CardTransaction, ExpenseItem}
use skon_biztrip_web.Db.Session.{Db, Service, pure, lift, query, ◌>>=◌, ◌>>◌}
use skon_biztrip_web.Page.{Page, slice}
use skon_biztrip_web.Matching.{suggest_expense_category, max_ordinal}

pub record CardOut : Type 0 where
  pub id : ℕ
  pub card_no_masked : String
  pub brand : String
  pub is_active : Bool

pub record CardTransactionOut : Type 0 where
  pub id : ℕ
  pub card_id : ℕ
  pub approved_at : ℕ
  pub merchant_name : String
  pub merchant_category_code : String
  pub amount : ℤ
  pub currency_code : String
  pub amount_krw : ℤ
  pub is_cancelled : Bool
  pub suggested_expense_category_code : String

pub record CardTxnFilters : Type 0 where
  pub card_id : Option ℕ
  pub approved_from : Option ℕ
  pub approved_to : Option ℕ
  pub merchant_category_code : Option String
  pub q : Option String
  pub include_cancelled : Bool
  pub unsettled : Bool
  pub page : ℕ
  pub size : ℕ

unfoldable pub to_out : CardTransaction → CardTransactionOut
to_out row = record {
  id = row.id;
  card_id = row.card_id;
  approved_at = row.approved_at;
  merchant_name = row.merchant_name;
  merchant_category_code = row.merchant_category_code;
  amount = row.amount;
  currency_code = row.currency_code;
  amount_krw = row.amount_krw;
  is_cancelled = row.is_cancelled;
  suggested_expense_category_code = suggest_expense_category row.merchant_category_code;
}

abbrev pub is_owned : User → CorporateCard → Bool
is_owned user card = card.user_id == user.id

unfoldable pub load_my_card_ids : User → Db → List ℕ
load_my_card_ids user db =
    map (λ (c : CorporateCard). c.id) (select (is_owned user) db.corporate_cards.rows)

unfoldable pub list_my_cards : User → Service (List CardOut)
list_my_cards user = query λ db.
    map
      (λ (c : CorporateCard). record {
        id = c.id;
        card_no_masked = c.card_no_masked;
        brand = c.brand;
        is_active = c.is_active;
      })
      (sort_by (λ (a b : CorporateCard). leb a.id b.id)
        (select (is_owned user) db.corporate_cards.rows))

-- The intersection with the card that the filter names.
abbrev pub filtered_cards : Option ℕ → List ℕ → List ℕ
filtered_cards none card_ids = card_ids
filtered_cards (some wanted) card_ids = select (λ (i : ℕ). i == wanted) card_ids

abbrev pub category_if : Option String → String → Bool
category_if none column = true
category_if (some text) column = if is_empty text then true else str_eq column text

abbrev pub claims : ℕ → Option ℕ → Bool
claims transaction_id none = false
claims transaction_id (some claimed) = claimed == transaction_id

-- `filters.unsettled`: no item of any report has it.
abbrev pub unsettled_if : Bool → List ExpenseItem → CardTransaction → Bool
unsettled_if wanted items row =
    if wanted
    then not (any (λ (i : ExpenseItem). claims row.id i.card_transaction_id) items)
    else true

-- `day + timedelta(days=1)` is no date after the last one.
abbrev pub assert_next_day : Option ℕ → Result (Unit {0})
assert_next_day none = ok tt
assert_next_day (some day) = if ltb day max_ordinal then ok tt else err (unexpected "OverflowError")

-- `CardTransaction.approved_at.desc(), CardTransaction.id.desc()`
abbrev pub is_later : CardTransaction → CardTransaction → Bool
is_later a b = ltb b.approved_at a.approved_at || (a.approved_at == b.approved_at && leb b.id a.id)

module _ (ilike : String → String → Bool) (kst_midnight : ℕ → ℕ) where
  abbrev pub from_if : Option ℕ → ℕ → Bool
  from_if none moment = true
  from_if (some day) moment = leb (kst_midnight day) moment

  abbrev pub to_if : Option ℕ → ℕ → Bool
  to_if none moment = true
  to_if (some day) moment = ltb moment (kst_midnight (day + 1))

  abbrev pub named_if : Option String → String → Bool
  named_if none column = true
  named_if (some q) column = if is_empty q then true else ilike column (join ("%" ∷ q ∷ "%" ∷ []))

  -- The conditions but that of the cards.
  abbrev pub is_wanted : CardTxnFilters → List ExpenseItem → CardTransaction → Bool
  is_wanted filters items row =
      (filters.include_cancelled || not row.is_cancelled)
      && from_if filters.approved_from row.approved_at
      && to_if filters.approved_to row.approved_at
      && category_if filters.merchant_category_code row.merchant_category_code
      && named_if filters.q row.merchant_name
      && unsettled_if filters.unsettled items row

  unfoldable pub selected : List ℕ → CardTxnFilters → Db → List CardTransaction
  selected card_ids filters db = sort_by is_later (
      select
        (λ (row : CardTransaction).
          any (λ (i : ℕ). i == row.card_id) card_ids && is_wanted filters db.expense_items.rows row)
        db.card_transactions.rows)

  -- What follows `if not card_ids`.
  unfoldable pub transactions_of : List ℕ → CardTxnFilters → Service (Page CardTransactionOut)
  transactions_of [] filters =
      pure (record { items = []; total = 0; page = filters.page; size = filters.size })
  transactions_of (i ∷ ids) filters = do
    lift (assert_next_day filters.approved_to)
    query (λ db. record {
      items = map to_out (slice filters.page filters.size (selected (i ∷ ids) filters db));
      total = length (selected (i ∷ ids) filters db);
      page = filters.page;
      size = filters.size;
    })

  unfoldable pub list_card_transactions : User → CardTxnFilters → Service (Page CardTransactionOut)
  list_card_transactions user filters = do
    card_ids ← query (load_my_card_ids user)
    transactions_of (filtered_cards filters.card_id card_ids) filters
