-- ===== src/Tests/Lists.antt =====
-- Runs of the lists: trips, notifications, card transactions, pages.
use skon_biztrip_web.Base.{
  ℕ, ◌≡◌, refl, true, false, none, some, [], ◌∷◌, All, str_eq, pos, ◌*◌, arith, ◌==◌, sort_by,
  insert_by,
}
use skon_biztrip_web.Enums.{TripStatus, NotificationType}
use skon_biztrip_web.Db.Rows.{Notification, CorporateCard, CardTransaction}
use skon_biztrip_web.Db.Session.{Db, handle, query}
use skon_biztrip_web.Db.Session.Ends.{Ensures}
use skon_biztrip_web.Page.{Page}
use skon_biztrip_web.Page.{slice, skip, take}
use skon_biztrip_web.Base.Sort.Laws.{count, IsOrdered}
use skon_biztrip_web.Trip.Rules.{can_view_trip}
use skon_biztrip_web.Trip.View.{TripListItem}
use skon_biztrip_web.Trip.Listing.{TripScope, TripFilters, list_trips}
use skon_biztrip_web.Trip.Listing.Laws.{list_trips-IsVisible}
use skon_biztrip_web.Errors.{ok}
use skon_biztrip_web.Notifications.{
  NotificationOut, NotificationPage, out_of, listed, unread_count, list_notifications, mark_read,
}
use skon_biztrip_web.Notifications.Pages.{
  read_pages, belongs, IsNoOlder, list_notifications-read_pages,
}
use skon_biztrip_web.Notifications.Laws.{Marked, mark_read-Marked}
use skon_biztrip_web.Cards.{CardTxnFilters, list_card_transactions}
use skon_biztrip_web.Cards.Laws.{ShowsOwn, list_card_transactions-ShowsOwn}
use skon_biztrip_web.Tests.Data.{company, minsu, jiyoon}

abbrev to_approve : TripFilters
to_approve = record {
  scope = TripScope.approvals;
  status = TripStatus.submitted ∷ [];
  destination_type_code = none;
  country_code = none;
  q = none;
  start_date_from = none;
  start_date_to = none;
  page = 1;
  size = 20;
}

list_trips-IsVisible_example :
    Ensures company
      (λ (page : Page TripListItem) (db' : Db).
        All
          (λ (item : TripListItem).
            can_view_trip jiyoon.id jiyoon.role item.user_id item.approver_id ≡ true)
          page.items
        × (db' ≡ company))
      (handle (list_trips str_eq jiyoon to_approve) company)
list_trips-IsVisible_example = list_trips-IsVisible str_eq jiyoon to_approve company

abbrev ping : Notification
ping = record {
  id = 1;
  user_id = 1;
  type = NotificationType.trip_approved;
  title = "Approved";
  body = "";
  link_url = none;
  is_read = false;
}

abbrev card : CorporateCard
card = record { id = 1; user_id = 1; card_no_masked = "****"; brand = "BC"; is_active = true }

abbrev lunch : CardTransaction
lunch = record {
  id = 1;
  card_id = 1;
  approved_at = 900;
  merchant_name = "Cafe";
  merchant_category_code = "MEAL";
  amount = pos 500;
  currency_code = "KRW";
  amount_krw = pos 500;
  is_cancelled = false;
}

abbrev busy : Db
busy = record company {
  notifications = record { rows = ping ∷ []; next_id = 2 };
  corporate_cards = record { rows = card ∷ []; next_id = 2 };
  card_transactions = record { rows = lunch ∷ []; next_id = 2 };
}

mark_read-Marked_example : Ensures busy (Marked minsu 1 busy) (handle (mark_read minsu 1) busy)
mark_read-Marked_example = mark_read-Marked minsu 1 busy

abbrev unsettled : CardTxnFilters
unsettled = record {
  card_id = some 1;
  approved_from = none;
  approved_to = none;
  merchant_category_code = none;
  q = none;
  include_cancelled = false;
  unsettled = true;
  page = 1;
  size = 20;
}

abbrev midnight : ℕ → ℕ
midnight day = day * 100

list_card_transactions-ShowsOwn_example :
    Ensures busy
      (ShowsOwn str_eq midnight minsu unsettled busy)
      (handle (list_card_transactions str_eq midnight minsu unsettled) busy)
list_card_transactions-ShowsOwn_example =
    list_card_transactions-ShowsOwn str_eq midnight minsu unsettled busy

abbrev later_ping : Notification
later_ping = record ping { id = 3; title = "Settled" }

abbrev inbox : Db
inbox = record company {
  notifications = record {
    rows = ping ∷ record ping { id = 2; user_id = 2 } ∷ later_ping ∷ [];
    next_id = 4;
  };
}

abbrev first_page : NotificationPage
first_page = record { items = out_of later_ping ∷ []; total = 2; unread = 2; page = 1; size = 1 }

first_read : handle (list_notifications minsu false 1 1) inbox ≡ (ok first_page, inbox)
unfolding handle list_notifications listed slice unread_count query skip take sort_by insert_by
first_read = refl

list_notifications-read_pages_example :
    ((id : ℕ)
      → count (λ (item : NotificationOut). item.id == id) (read_pages minsu false 2 1 inbox)
        ≡ count (belongs minsu false id) inbox.notifications.rows)
    × IsOrdered IsNoOlder (read_pages minsu false 2 1 inbox)
list_notifications-read_pages_example =
    list_notifications-read_pages minsu false 1 inbox 2 first_page first_read (omega arith)
