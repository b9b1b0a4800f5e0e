-- ===== src/Cards/Laws.antt =====
-- Whose transactions a list shows.
use skon_biztrip_web.Base.{
  ℕ, String, ◌≡◌, refl, Bool, true, ◌&&◌, ◌==◌, Option, none, some, List, [], ◌∷◌, All, any, select,
  map, arith,
}
use skon_biztrip_web.Base.Sort.Laws.{All-sort_by}
use skon_biztrip_web.Db.Rows.{User, CorporateCard, CardTransaction}
use skon_biztrip_web.Db.Session.{Db, handle, opened}
use skon_biztrip_web.Db.Session.Ends.{
  Ensures, Ends, Ends-handle, Ends-lift, Ends-pure, Ends-query, Ends-query_bind,
}
use skon_biztrip_web.Page.{Page}
use skon_biztrip_web.Page.Laws.{left_of, All-slice, All-select, All-map}
use skon_biztrip_web.Cards.{
  CardTransactionOut, CardTxnFilters, to_out, is_owned, load_my_card_ids, filtered_cards, is_later,
  is_wanted, selected, transactions_of, list_card_transactions,
}

-- A card of the user has that key.
abbrev pub is_own_card : User → List CorporateCard → ℕ → Bool
is_own_card user cards card_id =
    any (λ (c : CorporateCard). c.id == card_id && is_owned user c) cards

filtered_cards-any :
    (wanted : Option ℕ) (ids : List ℕ) (k : ℕ)
    → any (λ (i : ℕ). i == k) (filtered_cards wanted ids) ≡ true
    → any (λ (i : ℕ). i == k) ids ≡ true
filtered_cards-any none ids k h = h
filtered_cards-any (some w) [] k h = h
filtered_cards-any (some w) (i ∷ ids) k h = ground (arith, filtered_cards-any (some w) ids k)

ids-is_own_card :
    (user : User) (cards : List CorporateCard) (k : ℕ)
    → any (λ (i : ℕ). i == k) (map (λ (c : CorporateCard). c.id) (select (is_owned user) cards))
      ≡ true
    → is_own_card user cards k ≡ true
ids-is_own_card user [] k h = h
ids-is_own_card user (c ∷ cards) k h = ground (arith, ids-is_own_card user cards k)

module _ (ilike : String → String → Bool) (kst_midnight : ℕ → ℕ) (user : User)
    (filters : CardTxnFilters) (db : Db) where
  -- Every transaction of the page is one of a card of the user; the database stays.
  abbrev pub ShowsOwn : Page CardTransactionOut → Db → Type 0
  ShowsOwn page db' =
      All (λ (t : CardTransactionOut). is_own_card user db.corporate_cards.rows t.card_id ≡ true)
        page.items
      × (db' ≡ db)

  selected-own :
      (ids : List ℕ)
      → ((k : ℕ)
          → any (λ (i : ℕ). i == k) ids ≡ true
          → is_own_card user db.corporate_cards.rows k ≡ true)
      → All
          (λ (t : CardTransaction). is_own_card user db.corporate_cards.rows t.card_id ≡ true)
          (selected ilike kst_midnight ids filters db)
  unfolding selected
  selected-own ids own = All-sort_by is_later _ _ (
      All-select _ _
        (λ t kept. own t.card_id (
          left_of (any (λ (i : ℕ). i == t.card_id) ids)
            (is_wanted ilike kst_midnight filters db.expense_items.rows t) kept))
        db.card_transactions.rows)

  transactions_of-ShowsOwn :
      (ids : List ℕ)
      → ((k : ℕ)
          → any (λ (i : ℕ). i == k) ids ≡ true
          → is_own_card user db.corporate_cards.rows k ≡ true)
      → Ends db ShowsOwn (transactions_of ilike kst_midnight ids filters) (opened db)
  unfolding transactions_of to_out
  transactions_of-ShowsOwn [] own = Ends-pure _ _ (tt, refl)
  transactions_of-ShowsOwn (i ∷ ids) own = Ends-lift _ _ _ refl λ _ _.
      Ends-query _ _
        (All-map _ _ _ (All-slice _ filters.page filters.size _ (selected-own (i ∷ ids) own)), refl)

  -- Whatever card the filters name, a list shows only transactions of the user's own cards, and changes
  -- nothing.
  pub list_card_transactions-ShowsOwn :
      Ensures db ShowsOwn (handle (list_card_transactions ilike kst_midnight user filters) db)
  unfolding list_card_transactions load_my_card_ids
  list_card_transactions-ShowsOwn = Ends-handle _ (
      Ends-query_bind _ _ _ (
        transactions_of-ShowsOwn _ λ k listed.
          ids-is_own_card user db.corporate_cards.rows k
            (filtered_cards-any filters.card_id _ k listed)))
