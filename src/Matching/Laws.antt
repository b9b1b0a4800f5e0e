-- ===== src/Matching/Laws.antt =====
-- Which transactions are candidates, and in which order.
use skon_biztrip_web.Base.{
  ℕ, ◌<◌, ◌≤◌, ◌⊎◌, ◌≡◌, refl, ◌+◌, ◌∙◌, Bool, true, not, ◌&&◌, List, [], ◌∷◌, any, map, leb, ◌==◌,
  arith, sort_by, ap,
}
use skon_biztrip_web.Base.Sort.Laws.{any-map, any-sort_by}
use skon_biztrip_web.Errors.{ok}
use skon_biztrip_web.Matching.{
  TransactionView, MatchCandidate, Picked, is_before, pick, find_candidates,
}

-- Approved earlier, or at once and under no greater key.
abbrev pub Precedes : Picked → Picked → Type 0
Precedes a b = (a.approved_at < b.approved_at) ⊎ ((a.approved_at ≡ b.approved_at) × (a.id ≤ b.id))

module _ (kst_date : ℕ → ℕ) (start_date end_date : ℕ) where
  -- A transaction that counts: neither cancelled nor excluded, and its Korean date from the day before
  -- the start to the day after the end.
  abbrev pub is_wanted : List ℕ → TransactionView → Bool
  is_wanted excluded t =
      not t.is_cancelled
      && not (any (λ k. k == t.id) excluded)
      && leb start_date (kst_date t.approved_at + 1)
      && leb (kst_date t.approved_at) (end_date + 1)

  any-pick :
      (k : ℕ) (excluded : List ℕ) (transactions : List TransactionView)
      → any
          (λ p. p.candidate.transaction_id == k)
          (pick kst_date start_date end_date excluded transactions)
        ≡ any (λ t. t.id == k && is_wanted excluded t) transactions
  any-pick k excluded [] = refl
  any-pick k excluded (t ∷ transactions) = ground (arith, any-pick k excluded transactions)

  module _ (transactions : List TransactionView) where
    -- A row with the keys of a transaction and that transaction as its candidate.
    abbrev pub Keyed : Picked → Type 0
    Keyed p =
        (p.candidate.transaction_id ≡ p.id)
        × (any (λ t. t.id == p.id && t.approved_at == p.approved_at) transactions ≡ true)

  module _ (transactions : List TransactionView) (excluded : List ℕ)
      (candidates : List MatchCandidate) where
    found :
        find_candidates kst_date start_date end_date transactions excluded ≡ ok candidates
        → candidates
          ≡ map
              (λ (p : Picked). p.candidate)
              (sort_by is_before (pick kst_date start_date end_date excluded transactions))
    unfolding find_candidates
    found h = ground arith

-- The candidates are exactly the transactions that are neither cancelled nor excluded and whose Korean
-- date lies from the day before the trip to the day after it, whenever the window lies within the dates.
pub find_candidates-any :
    (kst_date : ℕ → ℕ) (start_date end_date : ℕ) (transactions : List TransactionView)
    (excluded : List ℕ) (candidates : List MatchCandidate) (k : ℕ)
    → find_candidates kst_date start_date end_date transactions excluded ≡ ok candidates
    → any (λ c. c.transaction_id == k) candidates
      ≡ any (λ t. t.id == k && is_wanted kst_date start_date end_date excluded t) transactions
find_candidates-any kst_date start_date end_date transactions excluded candidates k h =
    ap (any (λ c. c.transaction_id == k))
      (found kst_date start_date end_date transactions excluded candidates h)
    ∙ any-map _ _ (sort_by is_before (pick kst_date start_date end_date excluded transactions))
    ∙ any-sort_by is_before _ (pick kst_date start_date end_date excluded transactions)
    ∙ any-pick kst_date start_date end_date k excluded transactions
