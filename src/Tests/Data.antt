-- ===== src/Tests/Data.antt =====
-- The stored data of the runs.
use skon_biztrip_web.Base.{
  ℕ, ◌+ℤ◌, pos, String, true, false, none, some, List, [], ◌∷◌, refl, arith, Bool-cases, inl, inr,
  ◌==◌,
}
use skon_biztrip_web.Clock.{Clock}
use skon_biztrip_web.Enums.{TripStatus, ExpenseReportStatus, UserRole, UserStatus}
use skon_biztrip_web.Db.Table.{Table, get}
use skon_biztrip_web.Db.Rows.{
  User, CodeGroup, Code, Center, Trip, ExpenseReport, ExpenseItem, expense_report_entity,
}
use skon_biztrip_web.Db.Session.{Db}
use skon_biztrip_web.Patch.{Patch}
use skon_biztrip_web.Trip.Edit.Values.{TripCreate, TripUpdate}
use skon_biztrip_web.Expense.Items.{ExpenseItemCreate, ExpenseItemUpdate}
use skon_biztrip_web.Expense.Edit.{ExpenseReportUpdate}
use skon_biztrip_web.Trip.Invariant.{TripsAreWellFormed}
use skon_biztrip_web.Expense.Totals.{Shows}
use skon_biztrip_web.Expense.Settled.{ClosesTrip}
use skon_biztrip_web.Site.{IsConsistent}

abbrev pub clock : Clock
clock = record { today = 739700; now = 1000; utc_today = 739700 }

abbrev pub minsu : User
minsu = record {
  id = 1;
  email = "minsu@example.com";
  password_hash = "";
  name = "Minsu";
  employee_no = none;
  department_id = 1;
  position_code = none;
  manager_id = some 2;
  role = UserRole.employee;
  status = UserStatus.active;
  is_active = true;
}

abbrev pub jiyoon : User
jiyoon = record minsu {
  id = 2;
  email = "jiyoon@example.com";
  name = "Jiyoon";
  manager_id = none;
  role = UserRole.manager;
}

abbrev table : {A : Type 0} → List A → ℕ → Table A
table rows next_id = record { rows = rows; next_id = next_id }

abbrev pub draft_trip : Trip
draft_trip = record {
  id = 1;
  trip_no = "BT-2026-0001";
  user_id = 1;
  title = "Visit";
  purpose_code = "MEETING";
  purpose_detail = "";
  destination_type_code = "OVERSEAS";
  country_code = "US";
  city = "Atlanta";
  start_date = 739600;
  end_date = 739605;
  cost_center_code = none;
  status = TripStatus.draft;
  approver_id = none;
  submitted_at = none;
  approved_at = none;
  reject_reason = none;
}

abbrev pub submitted_trip : Trip
submitted_trip = record draft_trip {
  id = 2;
  trip_no = "BT-2026-0002";
  status = TripStatus.submitted;
  approver_id = some 2;
  submitted_at = some 900;
}

abbrev pub completed_trip : Trip
completed_trip = record draft_trip {
  id = 3;
  trip_no = "BT-2026-0003";
  status = TripStatus.completed;
  approver_id = some 2;
  submitted_at = some 700;
  approved_at = some 800;
}

abbrev pub approved_trip : Trip
approved_trip = record completed_trip {
  id = 4;
  trip_no = "BT-2026-0004";
  status = TripStatus.approved;
}

abbrev pub dinner : ExpenseItem
dinner = record {
  id = 1;
  report_id = 1;
  card_transaction_id = none;
  expense_category_code = "MEAL";
  amount_krw = pos 500;
  memo = none;
  is_excluded = false;
  fund_center_code = none;
  cost_center_code = none;
}

abbrev pub report : ExpenseReport
report = record {
  id = 1;
  report_no = "EX-2026-0001";
  trip_id = 3;
  user_id = 1;
  status = ExpenseReportStatus.draft;
  fund_center_code = some "F1";
  cost_center_code = some "C1";
  total_amount_krw = pos 500;
  approver_id = some 2;
  submitted_at = none;
  approved_at = none;
  reject_reason = none;
}

abbrev group : ℕ → String → CodeGroup
group id code = record {
  id = id;
  group_code = code;
  name = code;
  description = none;
  is_active = true;
}

abbrev entry : ℕ → ℕ → String → Code
entry id group_id code = record {
  id = id;
  group_id = group_id;
  code = code;
  name = code;
  sort_order = pos 0;
  is_active = true;
  extra = "{}";
}

abbrev center : String → Center
center code = record { id = 1; code = code; name = code; department_id = none; is_active = true }

abbrev pub company : Db
company = record {
  departments = table [] 1;
  users = table (minsu ∷ jiyoon ∷ []) 3;
  code_groups =
      table
        (group 1 "TRIP_PURPOSE"
          ∷ group 2 "DESTINATION_TYPE"
          ∷ group 3 "COUNTRY"
          ∷ group 4 "EXPENSE_CATEGORY"
          ∷ [])
        5;
  codes =
      table (entry 1 1 "MEETING" ∷ entry 2 2 "OVERSEAS" ∷ entry 3 3 "US" ∷ entry 4 4 "MEAL" ∷ []) 5;
  fund_centers = table (center "F1" ∷ []) 2;
  cost_centers = table (center "C1" ∷ []) 2;
  trips = table (draft_trip ∷ submitted_trip ∷ completed_trip ∷ approved_trip ∷ []) 5;
  corporate_cards = table [] 1;
  card_transactions = table [] 1;
  expense_reports = table (report ∷ []) 2;
  expense_items = table (dinner ∷ []) 2;
  notifications = table [] 1;
  activity_logs = table [] 1;
  api_keys = table [] 1;
}

-- The report, submitted.
abbrev pub submitted_report : ExpenseReport
submitted_report = record report { status = ExpenseReportStatus.submitted; submitted_at = some 900 }

abbrev pub waiting : Db
waiting = record company { expense_reports = table (submitted_report ∷ []) 2 }

abbrev pub trip_payload : TripCreate
trip_payload = record {
  title = "Fair";
  purpose_code = "MEETING";
  purpose_detail = "";
  destination_type_code = "OVERSEAS";
  country_code = "US";
  city = "Detroit";
  start_date = 739710;
  end_date = 739712;
}

abbrev pub trip_changes : TripUpdate
trip_changes = record {
  title = Patch.value "Fair";
  purpose_code = Patch.unset;
  purpose_detail = Patch.unset;
  destination_type_code = Patch.unset;
  country_code = Patch.unset;
  city = Patch.unset;
  start_date = Patch.unset;
  end_date = Patch.value 739601;
}

abbrev pub report_changes : ExpenseReportUpdate
report_changes = record { fund_center_code = Patch.null; cost_center_code = Patch.value "C1" }

abbrev pub item_payload : ExpenseItemCreate
item_payload = record {
  card_transaction_id = none;
  expense_category_code = "MEAL";
  amount_krw = some (pos 250);
  memo = none;
  fund_center_code = none;
  cost_center_code = none;
}

abbrev pub item_changes : ExpenseItemUpdate
item_changes = record {
  expense_category_code = Patch.unset;
  amount_krw = Patch.value (pos 700);
  memo = Patch.null;
  is_excluded = Patch.unset;
  fund_center_code = Patch.unset;
  cost_center_code = Patch.unset;
}

company-trips : TripsAreWellFormed company
company-trips = (
  record { dates = ground arith; stage = (refl, refl, refl) },
  (
    record { dates = ground arith; stage = (tt, tt, refl, refl) },
    (
      record { dates = ground arith; stage = (tt, tt, tt, refl) },
      (record { dates = ground arith; stage = (tt, tt, tt, refl) }, tt),
    ),
  ),
)

company-Shows : (k : ℕ) → Shows (get k company.expense_reports) company.expense_items
unfolding get ◌+ℤ◌
company-Shows k = elim (Bool-cases (1 == k)) [ inl same ↦ rw same refl | inr other ↦ rw other tt ]

company-ClosesTrip : (k : ℕ) → ClosesTrip (get k company.expense_reports) company.trips
unfolding get
company-ClosesTrip k = elim (Bool-cases (1 == k)) [
  | inl same ↦ rw same tt
  | inr other ↦ rw other tt
]

pub company-IsConsistent : IsConsistent company
company-IsConsistent = record {
  trips = company-trips;
  totals = record {
    shows = company-Shows;
    numbered = (ground arith, tt);
    owned = (ground arith, tt);
  };
  settled = record {
    closes = company-ClosesTrip;
    numbered = (ground arith, (ground arith, (ground arith, (ground arith, tt))));
  };
}
