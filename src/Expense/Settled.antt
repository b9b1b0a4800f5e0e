-- ===== src/Expense/Settled.antt =====
-- An approved report and its trip: the approval settles the trip, and nothing takes that back.
pub mod Keeps
pub mod Requests
use skon_biztrip_web.Base.{ℕ, ◌≡◌, ◌<◌, Option, none, some, All}
use skon_biztrip_web.Enums.{TripStatus, ExpenseReportStatus}
use skon_biztrip_web.Db.Table.{Table, get}
use skon_biztrip_web.Db.Rows.{Trip, ExpenseReport, trip_entity, expense_report_entity}
use skon_biztrip_web.Db.Session.{Db}

abbrev pub IsSettled : Option Trip → Type 0
IsSettled none = ⊥
IsSettled (some t) = t.status ≡ TripStatus.settled

-- An approved report has a settled trip.
abbrev pub Closes : ExpenseReportStatus → Option Trip → Type 0
Closes ExpenseReportStatus.approved found = IsSettled found
Closes ExpenseReportStatus.draft found = Unit
Closes ExpenseReportStatus.submitted found = Unit
Closes ExpenseReportStatus.rejected found = Unit

abbrev pub ClosesTrip : Option ExpenseReport → Table Trip → Type 0
ClosesTrip none trips = Unit
ClosesTrip (some r) trips = Closes r.status (get r.trip_id trips)

-- Every report that a lookup finds closes its trip; the keys of trips come from their sequence.
pub record Settled (reports : Table ExpenseReport) (trips : Table Trip) : Type 0 where
  pub closes : (k : ℕ) → ClosesTrip (get k reports) trips
  pub numbered : All (λ (t : Trip). t.id < trips.next_id) trips.rows

abbrev pub ReportsSettled : Db → Type 0
ReportsSettled db = Settled db.expense_reports db.trips
