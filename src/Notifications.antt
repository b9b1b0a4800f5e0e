-- ===== src/Notifications.antt =====
-- A user's notifications (backend/app/services/notifications.py).
pub mod Laws
pub mod Pages
use skon_biztrip_web.Base.{
  ℕ, String, Bool, true, false, not, ◌&&◌, Option, none, some, List, map, select, length, leb,
  sort_by, ◌==◌, if◌then◌else◌,
}
use skon_biztrip_web.Enums.{NotificationType}
use skon_biztrip_web.Errors.{Result, ok, err, not_found_error}
use skon_biztrip_web.Db.Table.{get, put}
use skon_biztrip_web.Db.Rows.{User, Notification, notification_entity}
use skon_biztrip_web.Db.Session.{Db, Service, pure, query, try_query, flush, commit, ◌>>=◌, ◌>>◌}
use skon_biztrip_web.Page.{slice}

pub record NotificationOut : Type 0 where
  pub id : ℕ
  pub type : NotificationType
  pub title : String
  pub body : String
  pub link_url : Option String
  pub is_read : Bool

pub record NotificationPage : Type 0 where
  pub items : List NotificationOut
  pub total : ℕ
  pub unread : ℕ
  pub page : ℕ
  pub size : ℕ

-- `NotificationOut.model_validate`
abbrev pub out_of : Notification → NotificationOut
out_of n = record {
  id = n.id;
  type = n.type;
  title = n.title;
  body = n.body;
  link_url = n.link_url;
  is_read = n.is_read;
}

abbrev pub is_unread_of : User → Notification → Bool
is_unread_of user n = n.user_id == user.id && not n.is_read

-- The conditions of the list.
abbrev pub is_listed : User → Bool → Notification → Bool
is_listed user unread_only n = n.user_id == user.id && (if unread_only then not n.is_read else true)

-- `created_at` rises with the key.
abbrev pub is_newer : Notification → Notification → Bool
is_newer a b = leb b.id a.id

unfoldable pub listed : User → Bool → Db → List Notification
listed user unread_only db =
    sort_by is_newer (select (is_listed user unread_only) db.notifications.rows)

unfoldable pub unread_count : User → Db → ℕ
unread_count user db = length (select (is_unread_of user) db.notifications.rows)

unfoldable pub list_notifications : User → Bool → ℕ → ℕ → Service NotificationPage
list_notifications user unread_only page size = query λ db. record {
  items = map out_of (slice page size (listed user unread_only db));
  total = length (listed user unread_only db);
  unread = unread_count user db;
  page = page;
  size = size;
}

-- `notification is None or notification.user_id != user.id`
abbrev pub own_notification : User → Option Notification → Result Notification
own_notification user none = err (not_found_error "NOTIFICATION_NOT_FOUND" none)
own_notification user (some n) =
    if n.user_id == user.id then ok n else err (not_found_error "NOTIFICATION_NOT_FOUND" none)

unfoldable pub load_notification : User → ℕ → Db → Result Notification
load_notification user notification_id db =
    own_notification user (get notification_id db.notifications)

unfoldable pub mark_read : User → ℕ → Service NotificationOut
mark_read user notification_id = do
  n ← try_query (load_notification user notification_id)
  let saved = record n { is_read = true }
  flush (λ db. record db { notifications = put saved db.notifications })
  commit
  pure (out_of saved)
