-- ===== src/Admin/Codes/Values.antt =====
-- The payloads of the administration of common codes and what they assign (backend/app/schemas/admin.py,
-- backend/app/services/admin/codes.py).
use skon_biztrip_web.Base.{ℕ, ℤ, String, Bool, Option}
use skon_biztrip_web.Errors.{Result, ok, err}
use skon_biztrip_web.Patch.{Patch, merged, assigned, not_null}
use skon_biztrip_web.Db.Rows.{CodeGroup, Code, code_group_entity, code_entity}

pub record CodeGroupCreate : Type 0 where
  pub group_code : String
  pub name : String
  pub description : Option String
  pub is_active : Bool

pub record CodeGroupUpdate : Type 0 where
  pub name : Patch String
  pub description : Patch String
  pub is_active : Patch Bool

pub record CodeCreate : Type 0 where
  pub code : String
  pub name : String
  pub sort_order : ℤ
  pub is_active : Bool
  pub extra : String

pub record CodeUpdate : Type 0 where
  pub name : Patch String
  pub sort_order : Patch ℤ
  pub is_active : Patch Bool
  pub extra : Patch String

abbrev pub new_group : CodeGroupCreate → ℕ → CodeGroup
new_group payload id = record {
  id = id;
  group_code = payload.group_code;
  name = payload.name;
  description = payload.description;
  is_active = payload.is_active;
}

abbrev pub new_code : ℕ → CodeCreate → ℕ → Code
new_code group_id payload id = record {
  id = id;
  group_id = group_id;
  code = payload.code;
  name = payload.name;
  sort_order = payload.sort_order;
  is_active = payload.is_active;
  extra = payload.extra;
}

-- The assignments of an update, where a column that may not become null comes as a result.
abbrev pub with_group_values :
    Result String → Result Bool → Patch String → CodeGroup → Result CodeGroup
with_group_values (err e) is_active description group = err e
with_group_values (ok name) (err e) description group = err e
with_group_values (ok name) (ok is_active) description group = ok (record group {
  name = name;
  description = assigned description group.description;
  is_active = is_active;
})

unfoldable pub patch_group : CodeGroupUpdate → CodeGroup → Result CodeGroup
patch_group payload group =
    with_group_values (not_null (merged payload.name group.name))
      (not_null (merged payload.is_active group.is_active)) payload.description group

abbrev pub with_code_values :
    Result String → Result ℤ → Result Bool → Result String → Code → Result Code
with_code_values (err e) sort_order is_active extra code = err e
with_code_values (ok name) (err e) is_active extra code = err e
with_code_values (ok name) (ok sort_order) (err e) extra code = err e
with_code_values (ok name) (ok sort_order) (ok is_active) (err e) code = err e
with_code_values (ok name) (ok sort_order) (ok is_active) (ok extra) code =
    ok (record code { name = name; sort_order = sort_order; is_active = is_active; extra = extra })

-- A null of `extra` is stored as the null of JSON, which is a value of its column.
abbrev pub new_extra : Patch String → String → String
new_extra Patch.unset old = old
new_extra Patch.null old = "null"
new_extra (Patch.value new) old = new

unfoldable pub patch_code : CodeUpdate → Code → Result Code
patch_code payload code =
    with_code_values (not_null (merged payload.name code.name))
      (not_null (merged payload.sort_order code.sort_order))
      (not_null (merged payload.is_active code.is_active)) (ok (new_extra payload.extra code.extra))
      code
