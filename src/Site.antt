-- ===== src/Site.antt =====
-- The endpoints on trips and on expense reports together (backend/app/routers/trips.py,
-- backend/app/routers/expenses.py): one request after another on one database.
pub mod Keeps
use skon_biztrip_web.Base.{ℕ}
use skon_biztrip_web.Clock.{Clock}
use skon_biztrip_web.Db.Rows.{User}
use skon_biztrip_web.Db.Session.{Db, handle}
use skon_biztrip_web.Trip.Flow.{TripCommand, run_command}
use skon_biztrip_web.Trip.Edit.{create_trip, update_trip, delete_trip}
use skon_biztrip_web.Trip.Edit.Values.{TripCreate, TripUpdate}
use skon_biztrip_web.Trip.Invariant.{TripsAreWellFormed}
use skon_biztrip_web.Expense.Flow.{ReportCommand}
use skon_biztrip_web.Expense.Flow as Report
use skon_biztrip_web.Expense.Edit.{ExpenseReportUpdate, create_report, update_report}
use skon_biztrip_web.Expense.Items.{
  ExpenseItemCreate, ExpenseItemUpdate, add_item, update_item, delete_item,
}
use skon_biztrip_web.Expense.Totals.{TotalsAgree}
use skon_biztrip_web.Expense.Settled.{ReportsSettled}

-- The endpoints that write, by their path parameter and payload.
pub data Request : Type 0 where
  post_trip : TripCreate → Request
  patch_trip : ℕ → TripUpdate → Request
  remove_trip : ℕ → Request
  move_trip : ℕ → TripCommand → Request
  post_report : ℕ → Request
  patch_report : ℕ → ExpenseReportUpdate → Request
  move_report : ℕ → ReportCommand → Request
  post_item : ℕ → ExpenseItemCreate → Request
  patch_item : ℕ → ExpenseItemUpdate → Request
  remove_item : ℕ → Request

-- The stored database after a request of the user.
unfoldable pub serve : Request → Clock → User → Db → Db
serve (post_trip payload) clock user db = (handle (create_trip clock user payload) db).1
serve (patch_trip trip_id payload) clock user db = (handle (update_trip user trip_id payload) db).1
serve (remove_trip trip_id) clock user db = (handle (delete_trip user trip_id) db).1
serve (move_trip trip_id command) clock user db =
    (handle (run_command command clock user trip_id) db).1
serve (post_report trip_id) clock user db = (handle (create_report clock user trip_id) db).1
serve (patch_report report_id payload) clock user db =
    (handle (update_report user report_id payload) db).1
serve (move_report report_id command) clock user db =
    (handle (Report.run_command command clock user report_id) db).1
serve (post_item report_id payload) clock user db = (handle (add_item user report_id payload) db).1
serve (patch_item item_id payload) clock user db = (handle (update_item user item_id payload) db).1
serve (remove_item item_id) clock user db = (handle (delete_item user item_id) db).1

-- What holds between two requests.
pub record IsConsistent (db : Db) : Type 0 where
  pub trips : TripsAreWellFormed db
  pub totals : TotalsAgree db
  pub settled : ReportsSettled db
