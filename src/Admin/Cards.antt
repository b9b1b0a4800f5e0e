-- ===== src/Admin/Cards.antt =====
-- The administration of corporate cards (backend/app/services/admin/cards.py).
use skon_biztrip_web.Base.{ℕ, String, Bool, Option, none, some, List, map, any, leb, sort_by, ◌==◌}
use skon_biztrip_web.Errors.{Result, ok, err, validation_error, not_found_error}
use skon_biztrip_web.Patch.{Patch, merged, not_null}
use skon_biztrip_web.Db.Table.{get, put, insert, delete}
use skon_biztrip_web.Db.Rows.{
  User, CorporateCard, CardTransaction, user_entity, corporate_card_entity,
}
use skon_biztrip_web.Db.Session.{Db, Service, lift, query, try_query, flush, commit, ◌>>=◌, ◌>>◌}
use skon_biztrip_web.Admin.Common.{delete_entity}

pub record AdminCardCreate : Type 0 where
  pub user_id : ℕ
  pub card_no_masked : String
  pub brand : String
  pub is_active : Bool

pub record AdminCardUpdate : Type 0 where
  pub card_no_masked : Patch String
  pub brand : Patch String
  pub is_active : Patch Bool

pub record AdminCardOut : Type 0 where
  pub id : ℕ
  pub user_id : ℕ
  pub user_name : String
  pub card_no_masked : String
  pub brand : String
  pub is_active : Bool

-- `names.get(card.user_id, "")`
abbrev pub owner_name : Option User → String
owner_name none = ""
owner_name (some user) = user.name

-- One element of `_to_out`.
unfoldable pub to_out : CorporateCard → Db → AdminCardOut
to_out card db = record {
  id = card.id;
  user_id = card.user_id;
  user_name = owner_name (get card.user_id db.users);
  card_no_masked = card.card_no_masked;
  brand = card.brand;
  is_active = card.is_active;
}

unfoldable pub list_cards : Service (List AdminCardOut)
list_cards = query λ db.
    map (λ (c : CorporateCard). to_out c db)
      (sort_by (λ (a b : CorporateCard). leb a.id b.id) db.corporate_cards.rows)

abbrev pub found_card : Option CorporateCard → Result CorporateCard
found_card none = err (not_found_error "CARD_NOT_FOUND" none)
found_card (some card) = ok card

-- `_load`
unfoldable pub load_card : ℕ → Db → Result CorporateCard
load_card card_id db = found_card (get card_id db.corporate_cards)

abbrev pub existing_user : Option User → Result (Unit {0})
existing_user none = err (validation_error "INVALID_USER" (some "user_id"))
existing_user (some user) = ok tt

abbrev pub new_card : AdminCardCreate → ℕ → CorporateCard
new_card payload id = record {
  id = id;
  user_id = payload.user_id;
  card_no_masked = payload.card_no_masked;
  brand = payload.brand;
  is_active = payload.is_active;
}

unfoldable pub create_card : AdminCardCreate → Service AdminCardOut
create_card payload = do
  try_query (λ db. existing_user (get payload.user_id db.users))
  card ← query (λ db. new_card payload db.corporate_cards.next_id)
  flush (λ db. record db { corporate_cards = insert (new_card payload) db.corporate_cards })
  commit
  query (to_out card)

-- The assignments of an update, where no column may become null.
abbrev pub with_values :
    Result String → Result String → Result Bool → CorporateCard → Result CorporateCard
with_values (err e) brand is_active card = err e
with_values (ok card_no_masked) (err e) is_active card = err e
with_values (ok card_no_masked) (ok brand) (err e) card = err e
with_values (ok card_no_masked) (ok brand) (ok is_active) card =
    ok (record card { card_no_masked = card_no_masked; brand = brand; is_active = is_active })

unfoldable pub patch_card : AdminCardUpdate → CorporateCard → Result CorporateCard
patch_card payload card =
    with_values (not_null (merged payload.card_no_masked card.card_no_masked))
      (not_null (merged payload.brand card.brand))
      (not_null (merged payload.is_active card.is_active)) card

unfoldable pub update_card : ℕ → AdminCardUpdate → Service AdminCardOut
update_card card_id payload = do
  card ← try_query (load_card card_id)
  saved ← lift (patch_card payload card)
  flush (λ db. record db { corporate_cards = put saved db.corporate_cards })
  commit
  query (to_out saved)

-- The foreign key of the transactions.
unfoldable pub has_transactions : ℕ → Db → Bool
has_transactions card_id db =
    any (λ (t : CardTransaction). t.card_id == card_id) db.card_transactions.rows

unfoldable pub delete_card : ℕ → Service (Unit {0})
delete_card card_id = do
  card ← try_query (load_card card_id)
  delete_entity (has_transactions card.id)
      (λ db. record db { corporate_cards = delete card.id db.corporate_cards })
