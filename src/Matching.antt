-- ===== src/Matching.antt =====
-- The matching of card transactions with a trip (backend/app/services/matching.py). The Korean date of
-- an instant, which the time zone database computes, is a parameter.
pub mod Laws
use skon_biztrip_web.Base.{
  ℕ, ℤ, String, ◌+◌, ◌-◌, Bool, true, false, not, ◌&&◌, ◌||◌, List, [], ◌∷◌, any, map, select, ltb,
  leb, ◌==◌, if◌then◌else◌, str_eq, sort_by,
}
use skon_biztrip_web.Errors.{Result, ok, err, unexpected}

pub record TransactionView : Type 0 where
  pub id : ℕ
  pub approved_at : ℕ
  pub merchant_category_code : String
  pub amount_krw : ℤ
  pub is_cancelled : Bool

pub record MatchCandidate : Type 0 where
  pub transaction_id : ℕ
  pub reasons : List String
  pub suggested_category_code : String

-- The keys of `MERCHANT_TO_EXPENSE`, each of which stands for itself.
abbrev pub merchant_to_expense : List String
merchant_to_expense = "MEAL" ∷ "TRANSPORT" ∷ "LODGING" ∷ "ENTERTAIN" ∷ "ETC" ∷ []

-- `suggest_expense_category`
unfoldable pub suggest_expense_category : String → String
suggest_expense_category merchant_category_code =
    if any (str_eq merchant_category_code) merchant_to_expense
    then merchant_category_code
    else "ETC"

-- `_reasons`
unfoldable pub reasons_of : ℕ → ℕ → ℕ → String → List String
reasons_of day start_date end_date category =
    if ltb day start_date
    then (if str_eq category "TRANSPORT" then "출발 전일 교통비" ∷ [] else "출발 전일 승인" ∷ [])
    else if ltb end_date day
    then (if str_eq category "TRANSPORT" then "종료 익일 교통비" ∷ [] else "종료 익일 승인" ∷ [])
    else if str_eq category "LODGING"
    then "출장기간 내 승인" ∷ "출장기간 내 숙박" ∷ []
    else "출장기간 내 승인" ∷ []

-- A row of `picked`: its two sort keys and the candidate.
pub record Picked : Type 0 where
  pub approved_at : ℕ
  pub id : ℕ
  pub candidate : MatchCandidate

-- The order of the tuples `(row[0], row[1])`.
abbrev pub is_before : Picked → Picked → Bool
is_before a b = ltb a.approved_at b.approved_at || (a.approved_at == b.approved_at && leb a.id b.id)

-- The last ordinal of a date, `date.max`.
abbrev pub max_ordinal : ℕ
max_ordinal = 3652059

module _ (kst_date : ℕ → ℕ) (start_date end_date : ℕ) where
  -- The two `continue`s of the loop, turned round.
  abbrev pub is_picked : List ℕ → TransactionView → Bool
  is_picked excluded t =
      not (t.is_cancelled || any (λ k. k == t.id) excluded)
      && not (
          ltb (kst_date t.approved_at) (start_date - 1)
          || ltb (end_date + 1) (kst_date t.approved_at))

  abbrev pub candidate_of : TransactionView → MatchCandidate
  candidate_of t = record {
    transaction_id = t.id;
    reasons = reasons_of (kst_date t.approved_at) start_date end_date t.merchant_category_code;
    suggested_category_code = suggest_expense_category t.merchant_category_code;
  }

  abbrev pub pick : List ℕ → List TransactionView → List Picked
  pick excluded [] = []
  pick excluded (t ∷ transactions) =
      let rest = pick excluded transactions in
      if is_picked excluded t
      then record { approved_at = t.approved_at; id = t.id; candidate = candidate_of t } ∷ rest
      else rest

  -- The window must lie within the dates: `timedelta` raises an OverflowError at either end.
  unfoldable pub find_candidates : List TransactionView → List ℕ → Result (List MatchCandidate)
  find_candidates transactions excluded =
      if leb start_date 1 || leb max_ordinal end_date
      then err (unexpected "OverflowError")
      else ok (map (λ (p : Picked). p.candidate) (sort_by is_before (pick excluded transactions)))
