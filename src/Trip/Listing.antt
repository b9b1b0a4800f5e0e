-- ===== src/Trip/Listing.antt =====
-- The list of trips (backend/app/services/trips.py). The database's ILIKE is a parameter, of the column
-- and the pattern.
pub mod Laws
use skon_biztrip_web.Base.{
  ℕ, String, Bool, true, false, ◌&&◌, ◌||◌, Option, none, some, List, [], ◌∷◌, any, select, length,
  join, str_eq, is_empty, leb, ltb, sort_by, ◌==◌, if◌then◌else◌,
}
use skon_biztrip_web.Enums.{TripStatus, trip_status_value, is_admin}
use skon_biztrip_web.Errors.{Result, ok, err, forbidden_error}
use skon_biztrip_web.Db.Rows.{User, Trip}
use skon_biztrip_web.Db.Session.{Db, Service, lift, query, ◌>>=◌, ◌>>◌}
use skon_biztrip_web.Page.{Page, slice}
use skon_biztrip_web.Trip.Rules.{is_user}
use skon_biztrip_web.Trip.View.{TripListItem, build_list_items}

-- `all` is any other text in the source; the router admits no other.
pub data TripScope : Type 0 where
  mine approvals all : TripScope

pub record TripFilters : Type 0 where
  pub scope : TripScope
  pub status : List TripStatus
  pub destination_type_code : Option String
  pub country_code : Option String
  pub q : Option String
  pub start_date_from : Option ℕ
  pub start_date_to : Option ℕ
  pub page : ℕ
  pub size : ℕ

-- The condition of `_scope_conditions`.
abbrev pub in_scope : User → TripScope → Trip → Bool
in_scope user TripScope.mine trip = trip.user_id == user.id
in_scope user TripScope.approvals trip = is_user user.id trip.approver_id
in_scope user TripScope.all trip = true

-- The refusal of `_scope_conditions`.
abbrev pub assert_scope : User → TripScope → Result (Unit {0})
assert_scope user TripScope.mine = ok tt
assert_scope user TripScope.approvals = ok tt
assert_scope user TripScope.all =
    if is_admin user.role then ok tt else err (forbidden_error "FORBIDDEN_SCOPE" none)

-- `if filters.status`, and the membership.
abbrev pub has_status : List TripStatus → TripStatus → Bool
has_status [] status = true
has_status (s ∷ rest) status =
    any (λ (x : TripStatus). str_eq (trip_status_value x) (trip_status_value status)) (s ∷ rest)

-- A filter by a text, which is none where it is empty.
abbrev pub equals_if : Option String → String → Bool
equals_if none column = true
equals_if (some text) column = if is_empty text then true else str_eq column text

abbrev pub from_if : Option ℕ → ℕ → Bool
from_if none day = true
from_if (some first_day) day = leb first_day day

abbrev pub to_if : Option ℕ → ℕ → Bool
to_if none day = true
to_if (some last_day) day = leb day last_day

-- `Trip.start_date.desc(), Trip.id.desc()`
abbrev pub is_newer : Trip → Trip → Bool
is_newer a b = ltb b.start_date a.start_date || (a.start_date == b.start_date && leb b.id a.id)

module _ (ilike : String → String → Bool) where
  -- The three columns that `q` searches.
  abbrev pub mentions : Option String → Trip → Bool
  mentions none trip = true
  mentions (some q) trip =
      if is_empty q
      then true
      else ilike trip.title (join ("%" ∷ q ∷ "%" ∷ []))
        || ilike trip.city (join ("%" ∷ q ∷ "%" ∷ []))
        || ilike trip.trip_no (join ("%" ∷ q ∷ "%" ∷ []))

  abbrev pub is_wanted : TripFilters → Trip → Bool
  unfolding join
  is_wanted filters trip =
      has_status filters.status trip.status
      && equals_if filters.destination_type_code trip.destination_type_code
      && equals_if filters.country_code trip.country_code
      && from_if filters.start_date_from trip.start_date
      && to_if filters.start_date_to trip.start_date
      && mentions filters.q trip

  unfoldable pub selected_trips : User → TripFilters → Db → List Trip
  selected_trips user filters db =
      sort_by is_newer
        (select (λ (t : Trip). in_scope user filters.scope t && is_wanted filters t) db.trips.rows)

  unfoldable pub list_trips : User → TripFilters → Service (Page TripListItem)
  list_trips user filters = do
    lift (assert_scope user filters.scope)
    query (λ db. record {
      items =
          build_list_items (slice filters.page filters.size (selected_trips user filters db)) db;
      total = length (selected_trips user filters db);
      page = filters.page;
      size = filters.size;
    })
