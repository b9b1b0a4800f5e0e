-- ===== src/Db/Rows.antt =====
-- The rows of backend/app/models: one record for each table that the services read or write.
-- Keys are numbers; a date is its ordinal, as `date.toordinal` counts; an instant is a number of
-- microseconds on one time line; an amount is an integer of hundredths, as Numeric(14, 2) keeps it.
-- A JSON value is its text. `created_at` and `updated_at`, which the database fills in, are left out.
use skon_biztrip_web.Base.{ℕ, ℤ, String, Bool, Option, List}
use skon_biztrip_web.Enums.{
  TripStatus, ExpenseReportStatus, UserRole, UserStatus, NotificationType, ActivityAction,
  EntityType,
}
use skon_biztrip_web.Db.Table.{Entity}

pub record Department : Type 0 where
  pub id : ℕ
  pub code : String
  pub name : String
  pub parent_id : Option ℕ

pub record User : Type 0 where
  pub id : ℕ
  pub email : String
  pub password_hash : String
  pub name : String
  pub employee_no : Option String
  pub department_id : ℕ
  pub position_code : Option String
  pub manager_id : Option ℕ
  pub role : UserRole
  pub status : UserStatus
  pub is_active : Bool

pub record CodeGroup : Type 0 where
  pub id : ℕ
  pub group_code : String
  pub name : String
  pub description : Option String
  pub is_active : Bool

pub record Code : Type 0 where
  pub id : ℕ
  pub group_id : ℕ
  pub code : String
  pub name : String
  pub sort_order : ℤ
  pub is_active : Bool
  pub extra : String

-- `FundCenter` and `CostCenter`, which have the same columns.
pub record Center : Type 0 where
  pub id : ℕ
  pub code : String
  pub name : String
  pub department_id : Option ℕ
  pub is_active : Bool

pub record Trip : Type 0 where
  pub id : ℕ
  pub trip_no : String
  pub user_id : ℕ
  pub title : String
  pub purpose_code : String
  pub purpose_detail : String
  pub destination_type_code : String
  pub country_code : String
  pub city : String
  pub start_date : ℕ
  pub end_date : ℕ
  pub cost_center_code : Option String
  pub status : TripStatus
  pub approver_id : Option ℕ
  pub submitted_at : Option ℕ
  pub approved_at : Option ℕ
  pub reject_reason : Option String

pub record CorporateCard : Type 0 where
  pub id : ℕ
  pub user_id : ℕ
  pub card_no_masked : String
  pub brand : String
  pub is_active : Bool

pub record CardTransaction : Type 0 where
  pub id : ℕ
  pub card_id : ℕ
  pub approved_at : ℕ
  pub merchant_name : String
  pub merchant_category_code : String
  pub amount : ℤ
  pub currency_code : String
  pub amount_krw : ℤ
  pub is_cancelled : Bool

pub record ExpenseReport : Type 0 where
  pub id : ℕ
  pub report_no : String
  pub trip_id : ℕ
  pub user_id : ℕ
  pub status : ExpenseReportStatus
  pub fund_center_code : Option String
  pub cost_center_code : Option String
  pub total_amount_krw : ℤ
  pub approver_id : Option ℕ
  pub submitted_at : Option ℕ
  pub approved_at : Option ℕ
  pub reject_reason : Option String

pub record ExpenseItem : Type 0 where
  pub id : ℕ
  pub report_id : ℕ
  pub card_transaction_id : Option ℕ
  pub expense_category_code : String
  pub amount_krw : ℤ
  pub memo : Option String
  pub is_excluded : Bool
  pub fund_center_code : Option String
  pub cost_center_code : Option String

pub record Notification : Type 0 where
  pub id : ℕ
  pub user_id : ℕ
  pub type : NotificationType
  pub title : String
  pub body : String
  pub link_url : Option String
  pub is_read : Bool

pub record ActivityLog : Type 0 where
  pub id : ℕ
  pub entity_type : EntityType
  pub entity_id : ℕ
  pub actor_id : ℕ
  pub action : ActivityAction
  pub from_status : Option String
  pub to_status : Option String
  pub memo : Option String

pub record ApiKey : Type 0 where
  pub id : ℕ
  pub user_id : ℕ
  pub name : String
  pub key_prefix : String
  pub key_hash : String
  pub scopes : List String
  pub last_used_at : Option ℕ
  pub expires_at : Option ℕ
  pub revoked_at : Option ℕ

instance abbrev pub department_entity : Entity Department
department_entity = record { ident = λ r. r.id }

instance abbrev pub user_entity : Entity User
user_entity = record { ident = λ r. r.id }

instance abbrev pub code_group_entity : Entity CodeGroup
code_group_entity = record { ident = λ r. r.id }

instance abbrev pub code_entity : Entity Code
code_entity = record { ident = λ r. r.id }

instance abbrev pub center_entity : Entity Center
center_entity = record { ident = λ r. r.id }

instance abbrev pub trip_entity : Entity Trip
trip_entity = record { ident = λ r. r.id }

instance abbrev pub corporate_card_entity : Entity CorporateCard
corporate_card_entity = record { ident = λ r. r.id }

instance abbrev pub card_transaction_entity : Entity CardTransaction
card_transaction_entity = record { ident = λ r. r.id }

instance abbrev pub expense_report_entity : Entity ExpenseReport
expense_report_entity = record { ident = λ r. r.id }

instance abbrev pub expense_item_entity : Entity ExpenseItem
expense_item_entity = record { ident = λ r. r.id }

instance abbrev pub notification_entity : Entity Notification
notification_entity = record { ident = λ r. r.id }

instance abbrev pub activity_log_entity : Entity ActivityLog
activity_log_entity = record { ident = λ r. r.id }

instance abbrev pub api_key_entity : Entity ApiKey
api_key_entity = record { ident = λ r. r.id }
