-- ===== src/Timeline.antt =====
-- The history of a trip or a report as its user reads it (backend/app/services/trips.py,
-- backend/app/services/expenses.py).
use skon_biztrip_web.Base.{ℕ, String, Bool, ◌&&◌, Option, List, map, select, leb, sort_by, ◌==◌}
use skon_biztrip_web.Enums.{EntityType, ActivityAction, same_entity}
use skon_biztrip_web.Db.Rows.{User, ActivityLog}
use skon_biztrip_web.Db.Session.{Db, Service, query, try_query, ◌>>=◌}
use skon_biztrip_web.Trip.View.{load_user_names, name_or_empty, load_visible_trip}
use skon_biztrip_web.Expense.View.{load_visible_report}

pub record TimelineEntry : Type 0 where
  pub id : ℕ
  pub action : ActivityAction
  pub from_status : Option String
  pub to_status : Option String
  pub memo : Option String
  pub actor_id : ℕ
  pub actor_name : String

-- `created_at` rises with the key.
abbrev pub is_older : ActivityLog → ActivityLog → Bool
is_older a b = leb a.id b.id

-- The query of both functions.
unfoldable pub logs_of : EntityType → ℕ → Db → List ActivityLog
logs_of entity_type entity_id db = sort_by is_older (
    select
      (λ (row : ActivityLog). same_entity row.entity_type entity_type && row.entity_id == entity_id)
      db.activity_logs.rows)

-- The response of both functions.
unfoldable pub entries : List ActivityLog → Db → List TimelineEntry
unfolding load_user_names
entries rows db =
    let names = load_user_names (map (λ (row : ActivityLog). row.actor_id) rows) db in
    map
      (λ (row : ActivityLog). record {
        id = row.id;
        action = row.action;
        from_status = row.from_status;
        to_status = row.to_status;
        memo = row.memo;
        actor_id = row.actor_id;
        actor_name = name_or_empty row.actor_id names;
      })
      rows

unfoldable pub list_timeline : User → ℕ → Service (List TimelineEntry)
list_timeline user trip_id = do
  trip ← try_query (load_visible_trip trip_id user)
  query (λ db. entries (logs_of EntityType.trip trip.id db) db)

unfoldable pub list_report_timeline : User → ℕ → Service (List TimelineEntry)
list_report_timeline user report_id = do
  report ← try_query (load_visible_report report_id user)
  query (λ db. entries (logs_of EntityType.expense_report report.id db) db)
