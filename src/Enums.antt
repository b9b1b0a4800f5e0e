-- ===== src/Enums.antt =====
-- The enumerations of backend/app/enums.py, with the text that each value is stored as.
use skon_biztrip_web.Base.{String, Bool, true, false, List, [], ◌∷◌}

pub data TripStatus : Type 0 where
  draft submitted approved rejected completed settled : TripStatus

pub data ExpenseReportStatus : Type 0 where
  draft submitted approved rejected : ExpenseReportStatus

pub data UserRole : Type 0 where
  employee manager admin : UserRole

pub data UserStatus : Type 0 where
  pending active rejected : UserStatus

pub data NotificationType : Type 0 where
  trip_submitted trip_approved trip_rejected : NotificationType
  expense_submitted expense_approved expense_rejected : NotificationType

pub data ActivityAction : Type 0 where
  created updated submitted approved rejected completed settled : ActivityAction

pub data EntityType : Type 0 where
  trip expense_report : EntityType

pub data ApiKeyScope : Type 0 where
  trips_read trips_write expenses_read expenses_write cards_read admin : ApiKeyScope

-- `status.value` of a trip.
abbrev pub trip_status_value : TripStatus → String
trip_status_value TripStatus.draft = "DRAFT"
trip_status_value TripStatus.submitted = "SUBMITTED"
trip_status_value TripStatus.approved = "APPROVED"
trip_status_value TripStatus.rejected = "REJECTED"
trip_status_value TripStatus.completed = "COMPLETED"
trip_status_value TripStatus.settled = "SETTLED"

-- `status.value` of an expense report.
abbrev pub report_status_value : ExpenseReportStatus → String
report_status_value ExpenseReportStatus.draft = "DRAFT"
report_status_value ExpenseReportStatus.submitted = "SUBMITTED"
report_status_value ExpenseReportStatus.approved = "APPROVED"
report_status_value ExpenseReportStatus.rejected = "REJECTED"

-- `role == UserRole.ADMIN`
abbrev pub is_admin : UserRole → Bool
is_admin UserRole.admin = true
is_admin _ = false

abbrev pub same_entity : EntityType → EntityType → Bool
same_entity EntityType.trip EntityType.trip = true
same_entity EntityType.expense_report EntityType.expense_report = true
same_entity _ _ = false

-- `str(scope)`
abbrev pub scope_value : ApiKeyScope → String
scope_value ApiKeyScope.trips_read = "trips:read"
scope_value ApiKeyScope.trips_write = "trips:write"
scope_value ApiKeyScope.expenses_read = "expenses:read"
scope_value ApiKeyScope.expenses_write = "expenses:write"
scope_value ApiKeyScope.cards_read = "cards:read"
scope_value ApiKeyScope.admin = "admin"

-- The members of the enumeration, in their order.
abbrev pub all_scopes : List ApiKeyScope
all_scopes =
    ApiKeyScope.trips_read ∷ ApiKeyScope.trips_write ∷ ApiKeyScope.expenses_read
    ∷ ApiKeyScope.expenses_write ∷ ApiKeyScope.cards_read ∷ ApiKeyScope.admin ∷ []
