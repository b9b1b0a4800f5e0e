-- ===== src/History.antt =====
-- The one place that writes the history and the notification of a transition
-- (backend/app/services/history.py).
pub mod Laws
use skon_biztrip_web.Base.{ℕ, String, false, Option, none, some, ◌==◌, if◌then◌else◌}
use skon_biztrip_web.Enums.{EntityType, ActivityAction, NotificationType}
use skon_biztrip_web.Db.Table.{insert}
use skon_biztrip_web.Db.Rows.{Notification, ActivityLog, notification_entity, activity_log_entity}
use skon_biztrip_web.Db.Session.{Db, Service, flush}

pub record NotifySpec : Type 0 where
  pub user_id : ℕ
  pub type : NotificationType
  pub title : String
  pub body : String
  pub link_url : Option String

-- The row of a notification.
abbrev pub notification : ℕ → NotifySpec → Notification
notification id notify = record {
  id = id;
  user_id = notify.user_id;
  type = notify.type;
  title = notify.title;
  body = notify.body;
  link_url = notify.link_url;
  is_read = false;
}

-- The row of the history.
abbrev pub log_entry :
    EntityType
    → ℕ
    → ℕ
    → ActivityAction
    → Option String
    → Option String
    → Option String
    → ℕ
    → ActivityLog
log_entry entity_type entity_id actor_id action from_status to_status memo id = record {
  id = id;
  entity_type = entity_type;
  entity_id = entity_id;
  actor_id = actor_id;
  action = action;
  from_status = from_status;
  to_status = to_status;
  memo = memo;
}

unfoldable pub add_notification : ℕ → Option NotifySpec → Db → Db
add_notification actor_id none db = db
add_notification actor_id (some notify) db =
    if notify.user_id == actor_id
    then db
    else record db { notifications = insert (λ id. notification id notify) db.notifications }

unfoldable pub add_log :
    EntityType → ℕ → ℕ → ActivityAction → Option String → Option String → Option String → Db → Db
add_log entity_type entity_id actor_id action from_status to_status memo db = record db {
  activity_logs =
      insert (log_entry entity_type entity_id actor_id action from_status to_status memo)
        db.activity_logs;
}

unfoldable pub write_transition :
    EntityType
    → ℕ
    → ℕ
    → ActivityAction
    → Option String
    → Option String
    → Option String
    → Option NotifySpec
    → Db
    → Db
unfolding add_log add_notification
write_transition entity_type entity_id actor_id action from_status to_status memo notify db =
    add_notification actor_id notify
      (add_log entity_type entity_id actor_id action from_status to_status memo db)

abbrev pub record_transition :
    EntityType
    → ℕ
    → ℕ
    → ActivityAction
    → Option String
    → Option String
    → Option String
    → Option NotifySpec
    → Service (Unit {0})
record_transition entity_type entity_id actor_id action from_status to_status memo notify =
    flush (write_transition entity_type entity_id actor_id action from_status to_status memo notify)
