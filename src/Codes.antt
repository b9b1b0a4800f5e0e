-- ===== src/Codes.antt =====
-- The check of code values against the common codes (backend/app/services/codes.py).
pub mod Laws
pub mod Listing
use skon_biztrip_web.Base.{
  ℕ, String, Bool, false, ◌&&◌, Option, none, some, List, [], ◌∷◌, map, any, select, str_eq, ◌==◌,
  if◌then◌else◌,
}
use skon_biztrip_web.Errors.{Result, ok, err, check, ◌>>◌, validation_error, unexpected}
use skon_biztrip_web.Db.Rows.{CodeGroup, Code}
use skon_biztrip_web.Db.Session.{Db}

-- `CodeSpec`: the group, the field of the response, the value.
abbrev pub CodeSpec : Type 0
CodeSpec = String × String × Option String

-- `value in allowed`, where None is in no set of texts.
abbrev pub is_in : Option String → List String → Bool
is_in none allowed = false
is_in (some value) allowed = any (str_eq value) allowed

unfoldable pub assert_valid_code : Option String → List String → String → Result (Unit {0})
assert_valid_code value allowed field =
    check (is_in value allowed) (validation_error "INVALID_CODE" (some field))

-- The first query: active groups among the wanted ones.
abbrev pub group_rows : List String → List CodeGroup → List CodeGroup
group_rows wanted rows = select (λ g. any (str_eq g.group_code) wanted && g.is_active) rows

-- `group_id_by_code.get(group_code)`
abbrev pub group_id_by_code : String → List CodeGroup → Option ℕ
group_id_by_code group_code [] = none
group_id_by_code group_code (g ∷ groups) =
    if str_eq g.group_code group_code then some g.id else group_id_by_code group_code groups

-- The second query: active codes of those groups.
abbrev pub code_rows : List CodeGroup → List Code → List Code
code_rows groups rows = select (λ c. any (λ g. g.id == c.group_id) groups && c.is_active) rows

-- `allowed.get(group_id, set())`
abbrev pub allowed : ℕ → List Code → List String
allowed group_id rows = map (λ (c : Code). c.code) (select (λ c. c.group_id == group_id) rows)

-- The first loop over the specs.
pub check_groups : List CodeSpec → List CodeGroup → Result (Unit {0})
check_groups [] groups = ok tt
check_groups ((group_code, field, value) ∷ specs) groups =
    elim (group_id_by_code group_code groups) [
      | none ↦ err (validation_error "UNKNOWN_CODE_GROUP" (some field))
      | some group_id ↦ check_groups specs groups
    ]

-- The second loop over the specs.
pub check_values : List CodeSpec → List CodeGroup → List Code → Result (Unit {0})
unfolding assert_valid_code
check_values [] groups codes = ok tt
check_values ((group_code, field, value) ∷ specs) groups codes =
    elim (group_id_by_code group_code groups) [
      | none ↦ err (unexpected "KeyError")
      | some group_id ↦ elim (assert_valid_code value (allowed group_id codes) field) [
        | err e ↦ err e
        | ok _ ↦ check_values specs groups codes
      ]
    ]

unfoldable pub validate_codes : List CodeSpec → Db → Result (Unit {0})
unfolding check_groups check_values
validate_codes specs db =
    let groups = group_rows (map (λ (s : CodeSpec). s.0) specs) db.code_groups.rows in
    check_groups specs groups >> check_values specs groups (code_rows groups db.codes.rows)
