-- ===== src/Codes/Laws.antt =====
-- What the check of code values lets through.
use skon_biztrip_web.Base.{
  ℕ, String, ◌≡◌, refl, Bool, true, false, ◌&&◌, Option, none, some, List, [], ◌∷◌, any, All,
  str_eq, ◌==◌, arith,
}
use skon_biztrip_web.Errors.{Result, ok, err, unexpected, ◌>>◌}
use skon_biztrip_web.Db.Rows.{CodeGroup, Code}
use skon_biztrip_web.Db.Session.{Db}
use skon_biztrip_web.Codes.{
  CodeSpec, is_in, assert_valid_code, group_rows, group_id_by_code, code_rows, allowed,
  check_values, validate_codes,
}

abbrev pub is_value : Option String → String → Bool
is_value none code = false
is_value (some value) code = str_eq value code

-- An active code of the group with the key.
abbrev pub has_code : List Code → Option String → ℕ → Bool
has_code codes value group_id =
    any (λ (c : Code). c.group_id == group_id && c.is_active && is_value value c.code) codes

-- An active group of that name has an active code of that value.
abbrev pub is_code : Db → CodeSpec → Bool
is_code db (group_code, field, value) =
    any
      (λ (g : CodeGroup).
        str_eq g.group_code group_code && g.is_active && has_code db.codes.rows value g.id)
      db.code_groups.rows

in_allowed :
    (value : Option String) (group_id : ℕ) (groups : List CodeGroup) (codes : List Code)
    → is_in value (allowed group_id (code_rows groups codes)) ≡ true
    → has_code codes value group_id ≡ true
in_allowed none group_id groups codes h = absurd (ground arith)
in_allowed (some value) group_id groups [] h = h
in_allowed (some value) group_id groups (c ∷ codes) h =
    ground (arith, in_allowed (some value) group_id groups codes)

module _ (holds : ℕ → Bool) (group_code : String) (group_id : ℕ) (wanted : List String) where
  in_groups :
      (groups : List CodeGroup)
      → group_id_by_code group_code (group_rows wanted groups) ≡ some group_id
      → holds group_id ≡ true
      → any (λ (g : CodeGroup). str_eq g.group_code group_code && g.is_active && holds g.id) groups
        ≡ true
  in_groups [] found h = absurd (ground arith)
  in_groups (g ∷ groups) found h = ground (arith, in_groups groups)

-- A value that passed, and the checks after it.
passed :
    (found : Option ℕ) (field : String) (value : Option String) (codes : List Code)
    (rest : Result (Unit {0}))
    → (elim found [
      | none ↦ err (unexpected "KeyError")
      | some group_id ↦ elim (assert_valid_code value (allowed group_id codes) field) [
        | err e ↦ err e
        | ok _ ↦ rest
      ]
    ])
      ≡ ok tt
    → (group_id : ℕ) × (found ≡ some group_id)
      × (is_in value (allowed group_id codes) ≡ true)
      × (rest ≡ ok tt)
unfolding assert_valid_code
passed none field value codes rest h = absurd (ground arith)
passed (some group_id) field value codes rest h = (group_id, refl, ground arith, ground arith)

check_values-codes :
    (specs : List CodeSpec) (wanted : List String) (db : Db)
    → check_values specs
        (group_rows wanted db.code_groups.rows)
        (code_rows (group_rows wanted db.code_groups.rows) db.codes.rows)
      ≡ ok tt
    → All (λ (s : CodeSpec). is_code db s ≡ true) specs
unfolding check_values
check_values-codes [] wanted db h = tt
check_values-codes ((group_code, field, value) ∷ specs) wanted db h =
    let groups = group_rows wanted db.code_groups.rows in
    let (group_id, found, value_in, rest) =
      passed _ field value (code_rows groups db.codes.rows) _ h in
    (
      in_groups (has_code db.codes.rows value) group_code group_id wanted db.code_groups.rows found
          (in_allowed value group_id groups db.codes.rows value_in),
      check_values-codes specs wanted db rest,
    )

-- Every value that the check lets through is an active code of an active group of the name that goes
-- with it.
pub validate_codes-codes :
    (specs : List CodeSpec) (db : Db)
    → validate_codes specs db ≡ ok tt
    → All (λ (s : CodeSpec). is_code db s ≡ true) specs
unfolding validate_codes
validate_codes-codes specs db h = check_values-codes specs _ db (second _ _ h)
  where
    second : (before after : Result (Unit {0})) → (before >> after) ≡ ok tt → after ≡ ok tt
    second before after h = ground arith
