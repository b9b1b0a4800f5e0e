-- ===== src/Admin/Codes.antt =====
-- The administration of common codes (backend/app/services/admin/codes.py). The database's and Python's
-- orders of texts are parameters.
pub mod Values
use skon_biztrip_web.Base.{
  ℕ, ℤ, String, Bool, false, not, ◌&&◌, ◌||◌, Option, none, some, List, [], ◌∷◌, map, any, select,
  sort_by, str_eq, ltb_ℤ, ◌==◌, if◌then◌else◌,
}
use skon_biztrip_web.Errors.{Result, ok, err, conflict_error, not_found_error, unexpected}
use skon_biztrip_web.Patch.{Patch, merged, assigned, not_null}
use skon_biztrip_web.Db.Table.{get, put, insert, delete}
use skon_biztrip_web.Db.Rows.{CodeGroup, Code, code_group_entity, code_entity}
use skon_biztrip_web.Db.Session.{Db, Service, lift, query, try_query, flush, commit, ◌>>=◌, ◌>>◌}
use skon_biztrip_web.Codes.Listing.{cons_out}
use skon_biztrip_web.Admin.Common.{assert_unique, delete_entity}
use skon_biztrip_web.Admin.Codes.Values.{
  CodeGroupCreate, CodeGroupUpdate, CodeCreate, CodeUpdate, new_group, new_code, patch_group,
  patch_code,
}

pub record AdminCodeOut : Type 0 where
  pub id : ℕ
  pub code : String
  pub name : String
  pub sort_order : ℤ
  pub is_active : Bool
  pub extra : String

pub record AdminCodeGroupOut : Type 0 where
  pub id : ℕ
  pub group_code : String
  pub name : String
  pub description : Option String
  pub is_active : Bool
  pub codes : List AdminCodeOut

-- `AdminCodeOut.model_validate`, which wants an object for `extra`; JSON's null is none.
abbrev pub code_out : Code → Result AdminCodeOut
code_out c =
    if str_eq c.extra "null"
    then err (unexpected "ValidationError")
    else ok (record {
      id = c.id;
      code = c.code;
      name = c.name;
      sort_order = c.sort_order;
      is_active = c.is_active;
      extra = c.extra;
    })

abbrev pub codes_out : List Code → Result (List AdminCodeOut)
codes_out [] = ok []
codes_out (c ∷ codes) = cons_out (code_out c) (codes_out codes)

-- `CodeGroup.codes`
abbrev pub codes_in : CodeGroup → Db → List Code
codes_in group db = select (λ (c : Code). c.group_id == group.id) db.codes.rows

-- The order of the tuples `(c.sort_order, c.code)`.
abbrev pub is_before : (String → String → Bool) → Code → Code → Bool
is_before text_leb a b =
    ltb_ℤ a.sort_order b.sort_order
    || (not (ltb_ℤ b.sort_order a.sort_order) && text_leb a.code b.code)

abbrev pub found_group : Option CodeGroup → Result CodeGroup
found_group none = err (not_found_error "CODE_GROUP_NOT_FOUND" none)
found_group (some group) = ok group

-- `_load_group`
unfoldable pub load_group : ℕ → Db → Result CodeGroup
load_group group_id db = found_group (get group_id db.code_groups)

abbrev pub found_code : Option Code → Result Code
found_code none = err (not_found_error "CODE_NOT_FOUND" none)
found_code (some code) = ok code

-- `_load_code`
unfoldable pub load_code : ℕ → Db → Result Code
load_code code_id db = found_code (get code_id db.codes)

abbrev pub with_codes : CodeGroup → Result (List AdminCodeOut) → Result AdminCodeGroupOut
with_codes group (err e) = err e
with_codes group (ok codes) = ok (record {
  id = group.id;
  group_code = group.group_code;
  name = group.name;
  description = group.description;
  is_active = group.is_active;
  codes = codes;
})

module _ (text_leb : String → String → Bool) where
  -- `_to_out`
  unfoldable pub to_out : CodeGroup → Db → Result AdminCodeGroupOut
  to_out group db = with_codes group (codes_out (sort_by (is_before text_leb) (codes_in group db)))

  abbrev pub groups_out : List CodeGroup → Db → Result (List AdminCodeGroupOut)
  groups_out [] db = ok []
  groups_out (g ∷ groups) db = cons_out (to_out g db) (groups_out groups db)

  unfoldable pub list_code_groups : (String → String → Bool) → Service (List AdminCodeGroupOut)
  list_code_groups collate = try_query λ db.
      groups_out
        (sort_by (λ (a b : CodeGroup). collate a.group_code b.group_code) db.code_groups.rows) db

  unfoldable pub create_code_group : CodeGroupCreate → Service AdminCodeGroupOut
  create_code_group payload = do
    try_query (λ db.
        assert_unique (map (λ (g : CodeGroup). g.group_code) db.code_groups.rows) payload.group_code
          "DUPLICATE_CODE_GROUP" "group_code")
    group ← query (λ db. new_group payload db.code_groups.next_id)
    flush (λ db. record db { code_groups = insert (new_group payload) db.code_groups })
    commit
    try_query (to_out group)

  unfoldable pub update_code_group : ℕ → CodeGroupUpdate → Service AdminCodeGroupOut
  update_code_group group_id payload = do
    group ← try_query (load_group group_id)
    saved ← lift (patch_group payload group)
    flush (λ db. record db { code_groups = put saved db.code_groups })
    commit
    try_query (to_out saved)

-- `if group.codes`
abbrev pub assert_no_codes : List Code → Result (Unit {0})
assert_no_codes [] = ok tt
assert_no_codes (c ∷ codes) = err (conflict_error "HAS_DEPENDENTS" none)

-- The foreign key of the codes.
unfoldable pub delete_code_group : ℕ → Service (Unit {0})
delete_code_group group_id = do
  group ← try_query (load_group group_id)
  try_query (λ db. assert_no_codes (codes_in group db))
  delete_entity (λ db. any (λ (c : Code). c.group_id == group.id) db.codes.rows)
      (λ db. record db { code_groups = delete group.id db.code_groups })

-- `existing is not None`
unfoldable pub assert_new_code : CodeGroup → String → Db → Result (Unit {0})
assert_new_code group code db =
    if any (λ (c : Code). c.group_id == group.id && str_eq c.code code) db.codes.rows
    then err (conflict_error "DUPLICATE_CODE" (some "code"))
    else ok tt

unfoldable pub create_code : ℕ → CodeCreate → Service AdminCodeOut
create_code group_id payload = do
  group ← try_query (load_group group_id)
  try_query (assert_new_code group payload.code)
  code ← query (λ db. new_code group.id payload db.codes.next_id)
  flush (λ db. record db { codes = insert (new_code group.id payload) db.codes })
  commit
  lift (code_out code)

unfoldable pub update_code : ℕ → CodeUpdate → Service AdminCodeOut
update_code code_id payload = do
  code ← try_query (load_code code_id)
  saved ← lift (patch_code payload code)
  flush (λ db. record db { codes = put saved db.codes })
  commit
  lift (code_out saved)

abbrev pub assert_inactive : Code → Result (Unit {0})
assert_inactive code =
    if code.is_active then err (conflict_error "CODE_STILL_ACTIVE" none) else ok tt

-- No foreign key refers to a code.
unfoldable pub delete_code : ℕ → Service (Unit {0})
delete_code code_id = do
  code ← try_query (load_code code_id)
  lift (assert_inactive code)
  delete_entity (λ db. false) (λ db. record db { codes = delete code.id db.codes })
