-- ===== src/Trip/Edit/Values.antt =====
-- The payloads of a trip's creation and update, their checks, and what they assign
-- (backend/app/schemas/trip.py, backend/app/services/trips.py).
use skon_biztrip_web.Base.{ℕ, String, Option, none, some, List, [], ◌∷◌}
use skon_biztrip_web.Enums.{TripStatus}
use skon_biztrip_web.Errors.{Result, ok, err, unexpected, ◌>>=◌, ◌>>◌}
use skon_biztrip_web.Patch.{Patch, merged, not_null}
use skon_biztrip_web.Codes.{CodeSpec, validate_codes}
use skon_biztrip_web.Db.Rows.{User, Trip}
use skon_biztrip_web.Db.Session.{Db}
use skon_biztrip_web.Trip.Rules.{assert_date_range}

pub record TripCreate : Type 0 where
  pub title : String
  pub purpose_code : String
  pub purpose_detail : String
  pub destination_type_code : String
  pub country_code : String
  pub city : String
  pub start_date : ℕ
  pub end_date : ℕ

pub record TripUpdate : Type 0 where
  pub title : Patch String
  pub purpose_code : Patch String
  pub purpose_detail : Patch String
  pub destination_type_code : Patch String
  pub country_code : Patch String
  pub city : Patch String
  pub start_date : Patch ℕ
  pub end_date : Patch ℕ

-- The values of `_VALIDATED_FIELDS`; an update may have merged a null into one.
pub record Validated : Type 0 where
  pub purpose_code : Option String
  pub destination_type_code : Option String
  pub country_code : Option String
  pub start_date : Option ℕ
  pub end_date : Option ℕ

-- `_CODE_FIELDS`, with the values.
abbrev pub code_fields : Validated → List CodeSpec
code_fields v =
    ("TRIP_PURPOSE", "purpose_code", v.purpose_code)
    ∷ ("DESTINATION_TYPE", "destination_type_code", v.destination_type_code)
    ∷ ("COUNTRY", "country_code", v.country_code)
    ∷ []

-- `end_date < start_date` raises a TypeError at a null.
abbrev assert_dates : Option ℕ → Option ℕ → Result (Unit {0})
assert_dates (some start_date) (some end_date) = assert_date_range start_date end_date
assert_dates _ _ = err (unexpected "TypeError")

-- `_validate_writable_fields`
unfoldable pub validate_writable_fields : Validated → Db → Result (Unit {0})
validate_writable_fields v db = do
  validate_codes (code_fields v) db
  assert_dates v.start_date v.end_date

abbrev pub created_values : TripCreate → Validated
created_values payload = record {
  purpose_code = some payload.purpose_code;
  destination_type_code = some payload.destination_type_code;
  country_code = some payload.country_code;
  start_date = some payload.start_date;
  end_date = some payload.end_date;
}

-- The new row, before its key is known.
abbrev pub new_trip : TripCreate → String → User → ℕ → Trip
new_trip payload trip_no user id = record {
  id = id;
  trip_no = trip_no;
  user_id = user.id;
  title = payload.title;
  purpose_code = payload.purpose_code;
  purpose_detail = payload.purpose_detail;
  destination_type_code = payload.destination_type_code;
  country_code = payload.country_code;
  city = payload.city;
  start_date = payload.start_date;
  end_date = payload.end_date;
  cost_center_code = none;
  status = TripStatus.draft;
  approver_id = none;
  submitted_at = none;
  approved_at = none;
  reject_reason = none;
}

-- The merged values that are validated.
abbrev pub merged_values : TripUpdate → Trip → Validated
merged_values payload trip = record {
  purpose_code = merged payload.purpose_code trip.purpose_code;
  destination_type_code = merged payload.destination_type_code trip.destination_type_code;
  country_code = merged payload.country_code trip.country_code;
  start_date = merged payload.start_date trip.start_date;
  end_date = merged payload.end_date trip.end_date;
}

-- The assignments of an update and their flush: no column of it may become null.
unfoldable pub patch_trip : TripUpdate → Trip → Result Trip
patch_trip payload trip = do
  title ← not_null (merged payload.title trip.title)
  purpose_code ← not_null (merged payload.purpose_code trip.purpose_code)
  purpose_detail ← not_null (merged payload.purpose_detail trip.purpose_detail)
  destination_type_code ← not_null (merged payload.destination_type_code trip.destination_type_code)
  country_code ← not_null (merged payload.country_code trip.country_code)
  city ← not_null (merged payload.city trip.city)
  start_date ← not_null (merged payload.start_date trip.start_date)
  end_date ← not_null (merged payload.end_date trip.end_date)
  ok (record trip {
    title = title;
    purpose_code = purpose_code;
    purpose_detail = purpose_detail;
    destination_type_code = destination_type_code;
    country_code = country_code;
    city = city;
    start_date = start_date;
    end_date = end_date;
  })
