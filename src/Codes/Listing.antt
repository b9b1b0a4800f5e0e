-- ===== src/Codes/Listing.antt =====
-- The active codes as forms show them (backend/app/services/codes.py). The database's order of texts is a
-- parameter.
use skon_biztrip_web.Base.{
  ℤ, String, Bool, not, ◌&&◌, ◌==◌, Option, none, some, List, [], ◌∷◌, first, select, sort_by,
  str_eq, ltb_ℤ, if◌then◌else◌,
}
use skon_biztrip_web.Errors.{Result, ok, err, not_found_error, unexpected}
use skon_biztrip_web.Db.Rows.{CodeGroup, Code}
use skon_biztrip_web.Db.Session.{Db}

pub record CodeOut : Type 0 where
  pub code : String
  pub name : String
  pub sort_order : ℤ
  pub extra : String

pub record CodeGroupOut : Type 0 where
  pub group_code : String
  pub name : String
  pub description : Option String
  pub codes : List CodeOut

-- `CodeOut` wants an object for `extra`; JSON's null is none.
abbrev pub code_out : Code → Result CodeOut
code_out c =
    if str_eq c.extra "null"
    then err (unexpected "ValidationError")
    else ok (record { code = c.code; name = c.name; sort_order = c.sort_order; extra = c.extra })

-- A comprehension whose elements may fail.
abbrev pub cons_out : {A : Type 0} → Result A → Result (List A) → Result (List A)
cons_out (err e) rest = err e
cons_out (ok a) (err e) = err e
cons_out (ok a) (ok rest) = ok (a ∷ rest)

abbrev pub codes_out : List Code → Result (List CodeOut)
codes_out [] = ok []
codes_out (c ∷ codes) = cons_out (code_out c) (codes_out codes)

-- The active codes of the group, by `sort_order`; the sort is stable.
abbrev pub active_codes : CodeGroup → Db → List Code
active_codes group db =
    sort_by (λ (a b : Code). not (ltb_ℤ b.sort_order a.sort_order))
      (select (λ (c : Code). c.group_id == group.id && c.is_active) db.codes.rows)

abbrev pub with_codes : CodeGroup → Result (List CodeOut) → Result CodeGroupOut
with_codes group (err e) = err e
with_codes group (ok codes) = ok (record {
  group_code = group.group_code;
  name = group.name;
  description = group.description;
  codes = codes;
})

-- `_to_group_out`
unfoldable pub to_group_out : CodeGroup → Db → Result CodeGroupOut
to_group_out group db = with_codes group (codes_out (active_codes group db))

abbrev pub groups_out : List CodeGroup → Db → Result (List CodeGroupOut)
groups_out [] db = ok []
groups_out (g ∷ groups) db = cons_out (to_group_out g db) (groups_out groups db)

unfoldable pub load_code_groups : (String → String → Bool) → Db → Result (List CodeGroupOut)
load_code_groups collate db =
    groups_out
      (sort_by (λ (a b : CodeGroup). collate a.group_code b.group_code)
        (select (λ (g : CodeGroup). g.is_active) db.code_groups.rows))
      db

abbrev pub found_group : Option CodeGroup → Db → Result CodeGroupOut
found_group none db = err (not_found_error "CODE_GROUP_NOT_FOUND" none)
found_group (some group) db = to_group_out group db

unfoldable pub load_code_group : String → Db → Result CodeGroupOut
load_code_group group_code db =
    found_group
      (first (λ (g : CodeGroup). str_eq g.group_code group_code && g.is_active) db.code_groups.rows)
      db
