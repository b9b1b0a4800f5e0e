-- ===== src/Trip/View.antt =====
-- What a trip answers: visibility, names and the response objects
-- (backend/app/services/trips.py, backend/app/schemas/trip.py).
use skon_biztrip_web.Base.{
  ℕ, String, ◌++◌, Option, none, some, List, [], ◌∷◌, map, any, select, first, str_eq, is_empty,
  ◌==◌, if◌then◌else◌,
}
use skon_biztrip_web.Enums.{TripStatus}
use skon_biztrip_web.Errors.{AppError, Result, ok, err, not_found_error}
use skon_biztrip_web.Db.Table.{get}
use skon_biztrip_web.Db.Rows.{User, Trip, Center, trip_entity}
use skon_biztrip_web.Db.Session.{Db}
use skon_biztrip_web.Trip.Rules.{can_view_trip}

-- A dict from user ids to names.
abbrev pub names_get : ℕ → List (ℕ × String) → Option String
names_get k [] = none
names_get k ((i, name) ∷ names) = if i == k then some name else names_get k names

-- `names.get(user_id, "")`
abbrev pub name_or_empty : ℕ → List (ℕ × String) → String
name_or_empty k names = elim (names_get k names) [ none ↦ "" | some name ↦ name ]

-- `names.get(approver_id) if approver_id else None`; 0 is no id to Python's `if`.
abbrev pub name_if : Option ℕ → List (ℕ × String) → Option String
name_if none names = none
name_if (some k) names = if k == 0 then none else names_get k names

unfoldable pub load_user_names : List ℕ → Db → List (ℕ × String)
load_user_names user_ids db =
    map (λ (u : User). (u.id, u.name))
      (select (λ (u : User). any (λ i. i == u.id) user_ids) db.users.rows)

abbrev pub optional_id : Option ℕ → List ℕ
optional_id none = []
optional_id (some k) = k ∷ []

pub record TripListItem : Type 0 where
  pub id : ℕ
  pub trip_no : String
  pub title : String
  pub city : String
  pub country_code : String
  pub destination_type_code : String
  pub purpose_code : String
  pub start_date : ℕ
  pub end_date : ℕ
  pub status : TripStatus
  pub user_id : ℕ
  pub user_name : String
  pub approver_id : Option ℕ
  pub approver_name : Option String

pub record TripDetail : Type 0 where
  pub item : TripListItem
  pub open item use *
  pub purpose_detail : String
  pub cost_center_code : Option String
  pub cost_center_name : Option String
  pub submitted_at : Option ℕ
  pub approved_at : Option ℕ
  pub reject_reason : Option String

-- The ids whose names a list of trips wants.
abbrev pub people : List Trip → List ℕ
people [] = []
people (t ∷ trips) = t.user_id ∷ (optional_id t.approver_id ++ people trips)

unfoldable pub list_item : List (ℕ × String) → Trip → TripListItem
list_item names trip = record {
  id = trip.id;
  trip_no = trip.trip_no;
  title = trip.title;
  city = trip.city;
  country_code = trip.country_code;
  destination_type_code = trip.destination_type_code;
  purpose_code = trip.purpose_code;
  start_date = trip.start_date;
  end_date = trip.end_date;
  status = trip.status;
  user_id = trip.user_id;
  user_name = name_or_empty trip.user_id names;
  approver_id = trip.approver_id;
  approver_name = name_if trip.approver_id names;
}

unfoldable pub build_list_items : List Trip → Db → List TripListItem
unfolding load_user_names list_item
build_list_items trips db = map (list_item (load_user_names (people trips) db)) trips

-- The cost centre's name; an empty code is not looked up.
abbrev pub center_name : Option String → Db → Option String
center_name none db = none
center_name (some code) db =
    if is_empty code
    then none
    else elim (first (λ (c : Center). str_eq c.code code) db.cost_centers.rows) [
      | none ↦ none
      | some c ↦ some c.name
    ]

unfoldable pub build_detail : Trip → Db → TripDetail
unfolding load_user_names list_item
build_detail trip db = record {
  item = list_item (load_user_names (people (trip ∷ [])) db) trip;
  purpose_detail = trip.purpose_detail;
  cost_center_code = trip.cost_center_code;
  cost_center_name = center_name trip.cost_center_code db;
  submitted_at = trip.submitted_at;
  approved_at = trip.approved_at;
  reject_reason = trip.reject_reason;
}

abbrev pub trip_not_found : AppError
trip_not_found = not_found_error "TRIP_NOT_FOUND" none

-- `trip is None or not can_view_trip(…)`
visible_or_missing : User → Option Trip → Result Trip
visible_or_missing user none = err trip_not_found
visible_or_missing user (some trip) =
    if can_view_trip user.id user.role trip.user_id trip.approver_id
    then ok trip
    else err trip_not_found

unfoldable pub load_visible_trip : ℕ → User → Db → Result Trip
unfolding visible_or_missing
load_visible_trip trip_id user db = visible_or_missing user (get trip_id db.trips)
