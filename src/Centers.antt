-- ===== src/Centers.antt =====
-- The check of a fund or cost centre against the active ones (backend/app/services/centers.py).
use skon_biztrip_web.Base.{String, Option, some, List, map, select, sort_by, ℕ, Bool}
use skon_biztrip_web.Errors.{Result, check, validation_error}
use skon_biztrip_web.Db.Table.{Table}
use skon_biztrip_web.Db.Rows.{Center}
use skon_biztrip_web.Db.Session.{Db}
use skon_biztrip_web.Codes.{is_in}

unfoldable pub load_active_center_codes : Table Center → List String
load_active_center_codes centers =
    map (λ (c : Center). c.code) (select (λ (c : Center). c.is_active) centers.rows)

unfoldable pub assert_center_code :
    Option String → List String → String → String → Result (Unit {0})
assert_center_code code allowed code_name field =
    check (is_in code allowed) (validation_error code_name (some field))

unfoldable pub assert_fund_center : Option String → Db → Result (Unit {0})
unfolding load_active_center_codes assert_center_code
assert_fund_center code db =
    assert_center_code code (load_active_center_codes db.fund_centers) "INVALID_FUND_CENTER"
      "fund_center_code"

unfoldable pub assert_cost_center : Option String → Db → Result (Unit {0})
unfolding load_active_center_codes assert_center_code
assert_cost_center code db =
    assert_center_code code (load_active_center_codes db.cost_centers) "INVALID_COST_CENTER"
      "cost_center_code"

pub record CenterOut : Type 0 where
  pub code : String
  pub name : String
  pub department_id : Option ℕ

-- `collate` is the database's order of texts.
unfoldable pub load_active_centers : (String → String → Bool) → Table Center → List CenterOut
load_active_centers collate centers =
    map (λ (c : Center). record { code = c.code; name = c.name; department_id = c.department_id })
      (sort_by (λ (a b : Center). collate a.code b.code)
        (select (λ (c : Center). c.is_active) centers.rows))
