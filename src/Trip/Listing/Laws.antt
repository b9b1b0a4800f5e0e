-- ===== src/Trip/Listing/Laws.antt =====
-- Which trips a list shows.
use skon_biztrip_web.Base.{String, ◌≡◌, refl, Bool, true, All, arith}
use skon_biztrip_web.Base.Sort.Laws.{All-sort_by}
use skon_biztrip_web.Errors.{ok}
use skon_biztrip_web.Db.Rows.{User, Trip}
use skon_biztrip_web.Db.Session.{Db, handle}
use skon_biztrip_web.Db.Session.Ends.{Ensures, Ends-handle, Ends-lift, Ends-query}
use skon_biztrip_web.Page.{Page}
use skon_biztrip_web.Page.Laws.{left_of, All-slice, All-select, All-map}
use skon_biztrip_web.Trip.Rules.{can_view_trip}
use skon_biztrip_web.Trip.View.{TripListItem, list_item, build_list_items}
use skon_biztrip_web.Trip.Listing.{
  TripScope, TripFilters, in_scope, assert_scope, is_wanted, is_newer, selected_trips, list_trips,
}

-- What `get_trip` lets the user see.
abbrev pub IsVisible : User → Trip → Type 0
IsVisible user trip = can_view_trip user.id user.role trip.user_id trip.approver_id ≡ true

in_scope-IsVisible :
    (user : User) (scope : TripScope) (trip : Trip)
    → assert_scope user scope ≡ ok tt
    → in_scope user scope trip ≡ true
    → IsVisible user trip
unfolding can_view_trip
in_scope-IsVisible user TripScope.mine trip allowed h = ground arith
in_scope-IsVisible user TripScope.approvals trip allowed h = ground arith
in_scope-IsVisible user TripScope.all trip allowed h = ground arith

module _ (ilike : String → String → Bool) (user : User) (filters : TripFilters) (db : Db) where
  selected_trips-IsVisible :
      assert_scope user filters.scope ≡ ok tt
      → All (IsVisible user) (selected_trips ilike user filters db)
  unfolding selected_trips
  selected_trips-IsVisible allowed = All-sort_by is_newer (IsVisible user) _ (
      All-select (IsVisible user) _
        (λ trip kept.
          in_scope-IsVisible user filters.scope trip allowed
            (left_of (in_scope user filters.scope trip) (is_wanted ilike filters trip) kept))
        db.trips.rows)

  -- Whatever the scope and the filters, a list shows only trips that its user may open, and changes
  -- nothing.
  pub list_trips-IsVisible :
      Ensures db
        (λ (page : Page TripListItem) (db' : Db).
          All
            (λ (item : TripListItem).
              can_view_trip user.id user.role item.user_id item.approver_id ≡ true)
            page.items
          × (db' ≡ db))
        (handle (list_trips ilike user filters) db)
  unfolding list_trips build_list_items list_item
  list_trips-IsVisible = Ends-handle _ (
      Ends-lift _ _ _ refl λ _ allowed. Ends-query _ _ (
        All-map _ _ _ (
            All-slice (IsVisible user) filters.page filters.size _
              (selected_trips-IsVisible allowed)),
        refl,
      ))
