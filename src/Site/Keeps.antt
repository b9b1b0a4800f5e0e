-- ===== src/Site/Keeps.antt =====
-- Every request keeps the stored trips well formed, the totals of the reports right and the trips of
-- approved reports settled.
use skon_biztrip_web.Base.{ℕ, ◌≡◌, refl}
use skon_biztrip_web.Clock.{Clock}
use skon_biztrip_web.Errors.{Result, ok, err}
use skon_biztrip_web.Db.Rows.{User, ExpenseReport, trip_entity}
use skon_biztrip_web.Db.Table.Laws.{All-get}
use skon_biztrip_web.Db.Session.{Db, handle}
use skon_biztrip_web.Db.Session.Ends.{Ensures}
use skon_biztrip_web.Trip.Flow.{TripCommand, run_command, save_trip}
use skon_biztrip_web.Trip.Flow.Spec as TripSpec
use skon_biztrip_web.Trip.Flow.Refines.{run_command-Moved}
use skon_biztrip_web.Trip.Edit.{create_trip, update_trip, delete_trip}
use skon_biztrip_web.Trip.Edit.Values.{TripCreate, TripUpdate}
use skon_biztrip_web.Trip.Edit.Effects.{
  Created, Updated, Deleted, create_trip-Created, update_trip-Updated, delete_trip-Deleted,
}
use skon_biztrip_web.Trip.Invariant.{IsWellFormed, TripsAreWellFormed}
use skon_biztrip_web.Trip.Invariant.Keeps.{
  settle-IsWellFormed, save_trip-TripsAreWellFormed, Moved-trips, Created-trips, Updated-trips,
  Deleted-trips,
}
use skon_biztrip_web.Expense.Edit.{ExpenseReportUpdate, save_report, create_report, update_report}
use skon_biztrip_web.Expense.Edit.Effects.{
  Opened, Edited, create_report-Opened, update_report-Edited,
}
use skon_biztrip_web.Expense.Items.{
  ExpenseItemCreate, ExpenseItemUpdate, add_item, update_item, delete_item,
}
use skon_biztrip_web.Expense.Items.Effects.{
  Added, Changed, Removed, add_item-Added, update_item-Changed, delete_item-Removed,
}
use skon_biztrip_web.Expense.Flow.{ReportCommand}
use skon_biztrip_web.Expense.Flow as Report
use skon_biztrip_web.Expense.Flow.Spec as ReportSpec
use skon_biztrip_web.Expense.Flow.Refines.{run_report_command-Moved}
use skon_biztrip_web.Expense.Totals.{TotalsAgree}
use skon_biztrip_web.Expense.Totals.Requests.{
  Added-totals, Changed-totals, Removed-totals, Opened-totals, Edited-totals, Moved-totals,
}
use skon_biztrip_web.Expense.Settled.{ReportsSettled}
use skon_biztrip_web.Expense.Settled.Requests.{
  Moved-trip-settled, Created-settled, Updated-settled, Deleted-settled, Opened-settled,
  Edited-settled, Retotaled-settled, Moved-report-settled,
}
use skon_biztrip_web.Site.{Request, serve, IsConsistent}

module _ {A : Type 0} (db : Db) (Q : A → Db → Type 0) where
  -- A property of the database that every success keeps is kept by the request.
  kept :
      (o : Result A × Db)
      → IsConsistent db
      → Ensures db Q o
      → ((a : A) (db' : Db) → Q a db' → IsConsistent db')
      → IsConsistent o.1
  kept (ok a, db') h q keep = keep a db' q
  kept (err e, db') h q keep = rw q h

module _ (clock : Clock) (user : User) (db : Db) (h : IsConsistent db) where
  -- The tables of the reports and of the items as they were.
  same_reports :
      (db' : Db)
      → TripsAreWellFormed db'
      → ReportsSettled db'
      → db'.expense_reports ≡ db.expense_reports
      → db'.expense_items ≡ db.expense_items
      → IsConsistent db'
  same_reports db' trips settled reports items = record {
    trips = trips;
    settled = settled;
    totals = rw reports (rw items h.totals);
  }

  -- The table of the trips as it was.
  same_trips :
      (db' : Db) → TotalsAgree db' → ReportsSettled db' → db'.trips ≡ db.trips → IsConsistent db'
  same_trips db' totals settled trips = record {
    trips = rw trips h.trips;
    totals = totals;
    settled = settled;
  }

  moved_trip :
      (k : ℕ) (command : TripCommand)
      → IsConsistent (handle (run_command command clock user k) db).1
  unfolding save_trip
  moved_trip k command =
      kept db (TripSpec.Moved clock user k command db) _ h
        (run_command-Moved command clock user k db)
        λ detail db' m.
          same_reports db' (Moved-trips clock user k command db detail db' h.trips m)
            (Moved-trip-settled clock user k command db detail db' h.settled m) m.4.expense_reports
            m.4.expense_items

  created_trip :
      (payload : TripCreate) → IsConsistent (handle (create_trip clock user payload) db).1
  created_trip payload =
      kept db (Created user payload db) _ h (create_trip-Created clock user payload db)
        λ detail db' m.
          same_reports db' (Created-trips user payload db detail db' h.trips m)
            (Created-settled user payload db detail db' h.settled m) m.3.expense_reports
            m.3.expense_items

  updated_trip :
      (k : ℕ) (payload : TripUpdate) → IsConsistent (handle (update_trip user k payload) db).1
  unfolding save_trip
  updated_trip k payload =
      kept db (Updated user k db) _ h (update_trip-Updated user k payload db) λ detail db' m.
        same_reports db' (Updated-trips user k db detail db' h.trips m)
          (Updated-settled user k db detail db' h.settled m) m.7.expense_reports m.7.expense_items

  deleted_trip : (k : ℕ) → IsConsistent (handle (delete_trip user k) db).1
  deleted_trip k = kept db (Deleted user k db) _ h (delete_trip-Deleted user k db) λ detail db' m.
      same_reports db' (Deleted-trips user k db detail db' h.trips m)
        (Deleted-settled user k db detail db' h.settled m) (rw m.5 refl) (rw m.5 refl)

  opened_report : (k : ℕ) → IsConsistent (handle (create_report clock user k) db).1
  opened_report k =
      kept db (Opened user k db) _ h (create_report-Opened clock user k db) λ answer db' m.
        same_trips db' (Opened-totals user k db answer db' h.totals m)
          (Opened-settled user k db answer db' h.settled m) m.6.trips

  edited_report :
      (k : ℕ) (payload : ExpenseReportUpdate)
      → IsConsistent (handle (update_report user k payload) db).1
  unfolding save_report
  edited_report k payload =
      kept db (Edited user k payload db) _ h (update_report-Edited user k payload db)
        λ answer db' m.
          same_trips db' (Edited-totals user k payload db answer db' h.totals m)
            (Edited-settled user k payload db answer db' h.settled m) m.4.trips

  added_item :
      (k : ℕ) (payload : ExpenseItemCreate) → IsConsistent (handle (add_item user k payload) db).1
  added_item k payload =
      kept db (Added user k payload db) _ h (add_item-Added user k payload db) λ answer db' m.
        same_trips db' (Added-totals user k payload db answer db' h.totals m)
          (Retotaled-settled user k m.0 _ db db' h.settled m.5) (rw m.5.stored refl)

  changed_item :
      (k : ℕ) (payload : ExpenseItemUpdate)
      → IsConsistent (handle (update_item user k payload) db).1
  changed_item k payload =
      kept db (Changed user k payload db) _ h (update_item-Changed user k payload db)
        λ answer db' m.
          same_trips db' (Changed-totals user k payload db answer db' h.totals m)
            (Retotaled-settled user m.1.report_id m.0 _ db db' h.settled m.7) (rw m.7.stored refl)

  removed_item : (k : ℕ) → IsConsistent (handle (delete_item user k) db).1
  removed_item k = kept db (Removed user k db) _ h (delete_item-Removed user k db) λ answer db' m.
      same_trips db' (Removed-totals user k db answer db' h.totals m)
        (Retotaled-settled user m.1.report_id m.0 _ db db' h.settled m.3) (rw m.3.stored refl)

  -- The trips after an approval: one of them is settled, and it was completed.
  settled_trips :
      (command : ReportCommand) (r : ExpenseReport) (mid db' : Db)
      → TripsAreWellFormed mid
      → ReportSpec.Followed user command r mid db'
      → TripsAreWellFormed db'
  settled_trips ReportCommand.submit r mid db' w same = rw same w
  settled_trips (ReportCommand.reject reason) r mid db' w same = rw same w
  settled_trips ReportCommand.reopen r mid db' w same = rw same w
  settled_trips ReportCommand.approve r mid db' w (t, found, completed, recorded) =
      rw recorded.trips (
        save_trip-TripsAreWellFormed _ mid w
          (settle-IsWellFormed t completed (All-get IsWellFormed r.trip_id mid.trips t w found)))

  moved_report :
      (k : ℕ) (command : ReportCommand)
      → IsConsistent (handle (Report.run_command command clock user k) db).1
  unfolding save_report
  moved_report k command =
      kept db (ReportSpec.Moved clock user k command db) _ h
        (run_report_command-Moved command clock user k db)
        λ answer db' m. record {
          trips = settled_trips command m.0 m.2 db' (rw m.5.trips h.trips) m.6;
          totals = Moved-totals clock user k command db answer db' h.totals m;
          settled = Moved-report-settled clock user k command db answer db' h.settled m;
        }

-- Whatever request a user sends, at whatever time, it keeps every stored trip well formed (its dates
-- in order, its approver, instants and reason as its state demands), every report's total the sum
-- over its items that are not excluded, and the trip of every approved report settled.
pub serve-IsConsistent :
    (request : Request) (clock : Clock) (user : User) (db : Db)
    → IsConsistent db
    → IsConsistent (serve request clock user db)
unfolding serve
serve-IsConsistent (Request.post_trip payload) clock user db h =
    created_trip clock user db h payload
serve-IsConsistent (Request.patch_trip k payload) clock user db h =
    updated_trip clock user db h k payload
serve-IsConsistent (Request.remove_trip k) clock user db h = deleted_trip clock user db h k
serve-IsConsistent (Request.move_trip k command) clock user db h =
    moved_trip clock user db h k command
serve-IsConsistent (Request.post_report k) clock user db h = opened_report clock user db h k
serve-IsConsistent (Request.patch_report k payload) clock user db h =
    edited_report clock user db h k payload
serve-IsConsistent (Request.move_report k command) clock user db h =
    moved_report clock user db h k command
serve-IsConsistent (Request.post_item k payload) clock user db h =
    added_item clock user db h k payload
serve-IsConsistent (Request.patch_item k payload) clock user db h =
    changed_item clock user db h k payload
serve-IsConsistent (Request.remove_item k) clock user db h = removed_item clock user db h k
