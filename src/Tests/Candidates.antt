-- ===== src/Tests/Candidates.antt =====
-- Runs of the matching, with days of 100 ticks for a calendar.
use skon_biztrip_web.Base.{
  ℕ, ◌/◌, ◌≡◌, refl, ◌&&◌, ◌==◌, pos, false, List, [], ◌∷◌, any, insert_by, sort_by,
}
use skon_biztrip_web.Errors.{ok}
use skon_biztrip_web.Matching.{
  TransactionView, MatchCandidate, find_candidates, suggest_expense_category, reasons_of,
}
use skon_biztrip_web.Matching.Laws.{is_wanted, find_candidates-any}

abbrev day_of : ℕ → ℕ
day_of moment = moment / 100

abbrev taxi : TransactionView
taxi = record {
  id = 7;
  approved_at = 1150;
  merchant_category_code = "TRANSPORT";
  amount_krw = pos 900;
  is_cancelled = false;
}

abbrev hotel : TransactionView
hotel = record taxi { id = 3; approved_at = 950; merchant_category_code = "LODGING" }

abbrev late : TransactionView
late = record taxi { id = 9; approved_at = 1400 }

abbrev payments : List TransactionView
payments = taxi ∷ late ∷ hotel ∷ []

abbrev chosen : List MatchCandidate
chosen =
    record { transaction_id = 3; reasons = "출발 전일 승인" ∷ []; suggested_category_code = "LODGING" }
    ∷ record {
      transaction_id = 7;
      reasons = "출장기간 내 승인" ∷ [];
      suggested_category_code = "TRANSPORT";
    }
    ∷ []

find_candidates_test : find_candidates day_of 10 12 payments [] ≡ ok chosen
unfolding find_candidates sort_by insert_by suggest_expense_category reasons_of
find_candidates_test = refl

find_candidates-any_example :
    any (λ (c : MatchCandidate). c.transaction_id == 9) chosen
    ≡ any (λ (t : TransactionView). t.id == 9 && is_wanted day_of 10 12 [] t) payments
find_candidates-any_example =
    find_candidates-any day_of 10 12 payments [] chosen 9 find_candidates_test
