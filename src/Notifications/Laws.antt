-- ===== src/Notifications/Laws.antt =====
-- Whose notifications are read, and what that changes.
use skon_biztrip_web.Base.{
  ℕ, ◌+◌, ◌≡◌, refl, true, some, List, [], ◌∷◌, select, length, arith, if◌then◌else◌,
}
use skon_biztrip_web.Errors.{ok}
use skon_biztrip_web.Db.Table.{get, put, find_row, put_row}
use skon_biztrip_web.Db.Table.Laws.{get-ident}
use skon_biztrip_web.Db.Rows.{User, Notification, notification_entity}
use skon_biztrip_web.Db.Session.{Db, handle}
use skon_biztrip_web.Db.Session.Ends.{
  Ensures, Ends-handle, Ends-pure, Ends-flush, Ends-commit, Ends-try_query,
}
use skon_biztrip_web.Notifications.{
  NotificationOut, out_of, is_unread_of, unread_count, load_notification, mark_read,
}

load_notification-ok :
    (user : User) (notification_id : ℕ) (db : Db) (n : Notification)
    → load_notification user notification_id db ≡ ok n
    → (get notification_id db.notifications ≡ some n) × (n.user_id ≡ user.id)
unfolding load_notification
load_notification-ok user notification_id db n h = ground arith

unread : User → List Notification → ℕ
unread user rows = length (select (is_unread_of user) rows)

-- Marking the row under a key takes one from the unread ones, if it was one of them.
unread-put_row :
    (user : User) (k : ℕ) (n : Notification) (rows : List Notification)
    → find_row k rows ≡ some n
    → n.id ≡ k
    → n.user_id ≡ user.id
    → unread user rows
      ≡ unread user (put_row (record n { is_read = true }) rows) + (if n.is_read then 0 else 1)
unfolding unread
unread-put_row user k n [] found at_k own = absurd (ground arith)
unread-put_row user k n (x ∷ rows) found at_k own = ground (arith, unread-put_row user k n rows)

-- The notification under that key is the user's own; it is read now, which takes one off the count of
-- the unread ones if it was unread, and nothing else changes.
abbrev pub Marked : User → ℕ → Db → NotificationOut → Db → Type 0
Marked user notification_id db out db' =
    (n : Notification) × (get notification_id db.notifications ≡ some n)
    × (n.user_id ≡ user.id)
    × (out ≡ out_of (record n { is_read = true }))
    × (db' ≡ record db { notifications = put (record n { is_read = true }) db.notifications })
    × (unread_count user db ≡ unread_count user db' + (if n.is_read then 0 else 1))

counted :
    (user : User) (notification_id : ℕ) (n : Notification) (db : Db)
    → get notification_id db.notifications ≡ some n
    → n.user_id ≡ user.id
    → unread_count user db
      ≡ unread_count user
          (record db { notifications = put (record n { is_read = true }) db.notifications })
        + (if n.is_read then 0 else 1)
unfolding unread_count get put unread
counted user notification_id n db found own =
    unread-put_row user notification_id n db.notifications.rows found
      (get-ident notification_id db.notifications n found) own

-- Only the recipient marks a notification as read, and the badge of unread ones falls by one where it
-- was unread; or an error is raised and nothing changes.
pub mark_read-Marked :
    (user : User) (notification_id : ℕ) (db : Db)
    → Ensures db (Marked user notification_id db) (handle (mark_read user notification_id) db)
unfolding mark_read
mark_read-Marked user notification_id db = Ends-handle _ (
    Ends-try_query _ _ _ refl λ n loaded. Ends-flush _ _ _ (
      Ends-commit _ _ (
        Ends-pure _ _ (
          let (found, own) = load_notification-ok user notification_id db n loaded in
          (n, found, own, refl, refl, counted user notification_id n db found own)))))
