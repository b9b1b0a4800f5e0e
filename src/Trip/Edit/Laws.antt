-- ===== src/Trip/Edit/Laws.antt =====
-- What the edits of a trip may change.
use skon_biztrip_web.Base.{ℕ, ◌≡◌, ◌≤◌, ◌⊎◌, some, arith}
use skon_biztrip_web.Enums.{TripStatus}
use skon_biztrip_web.Errors.{ok}
use skon_biztrip_web.Patch.{merged}
use skon_biztrip_web.Db.Rows.{Trip}
use skon_biztrip_web.Db.Session.{Db}
use skon_biztrip_web.Trip.Rules.{assert_editable}
use skon_biztrip_web.Trip.Rules.Laws.{assert_date_range-le}
use skon_biztrip_web.Trip.Edit.Values.{TripUpdate, Validated, patch_trip, validate_writable_fields}

-- The columns of a trip that its life turns on and that no edit reaches.
pub record SameLife (t t' : Trip) : Type 0 where
  pub id : t'.id ≡ t.id
  pub trip_no : t'.trip_no ≡ t.trip_no
  pub user_id : t'.user_id ≡ t.user_id
  pub status : t'.status ≡ t.status
  pub cost_center_code : t'.cost_center_code ≡ t.cost_center_code
  pub approver_id : t'.approver_id ≡ t.approver_id
  pub submitted_at : t'.submitted_at ≡ t.submitted_at
  pub approved_at : t'.approved_at ≡ t.approved_at
  pub reject_reason : t'.reject_reason ≡ t.reject_reason

module _ (payload : TripUpdate) (t saved : Trip) (patched : patch_trip payload t ≡ ok saved) where
  pub patch_trip-SameLife : SameLife t saved
  unfolding patch_trip
  patch_trip-SameLife = ground arith

  pub patch_trip-start_date : merged payload.start_date t.start_date ≡ some saved.start_date
  unfolding patch_trip
  patch_trip-start_date = ground arith

  pub patch_trip-end_date : merged payload.end_date t.end_date ≡ some saved.end_date
  unfolding patch_trip
  patch_trip-end_date = ground arith

pub validate_writable_fields-dates :
    (v : Validated) (db : Db) (s e : ℕ)
    → v.start_date ≡ some s
    → v.end_date ≡ some e
    → validate_writable_fields v db ≡ ok tt
    → s ≤ e
unfolding validate_writable_fields
validate_writable_fields-dates v db s e hs he h = assert_date_range-le s e (ground arith)

pub assert_editable-status :
    (status : TripStatus)
    → assert_editable status ≡ ok tt
    → (status ≡ TripStatus.draft) ⊎ (status ≡ TripStatus.rejected)
unfolding assert_editable
assert_editable-status status h = ground arith
