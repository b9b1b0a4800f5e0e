-- ===== src/History/Laws.antt =====
-- What the writing of a transition changes: one row of the history, at most one notification, and no
-- other table.
use skon_biztrip_web.Base.{
  ℕ, String, false, ◌≡◌, refl, arith, inl, inr, ap, Bool-cases, Option, none, some, ◌==◌,
  if◌then◌else◌, ◌∷◌,
}
use skon_biztrip_web.Enums.{EntityType, ActivityAction}
use skon_biztrip_web.Db.Table.{Table, insert}
use skon_biztrip_web.Db.Rows.{Notification, ActivityLog, activity_log_entity}
use skon_biztrip_web.Db.Session.{Db}
use skon_biztrip_web.History.{
  NotifySpec, add_notification, add_log, notification, log_entry, write_transition,
}

-- Every table that a transition of a trip or of a report leaves alone.
pub record SameMasters (db db' : Db) : Type 0 where
  pub departments : db'.departments ≡ db.departments
  pub users : db'.users ≡ db.users
  pub code_groups : db'.code_groups ≡ db.code_groups
  pub codes : db'.codes ≡ db.codes
  pub fund_centers : db'.fund_centers ≡ db.fund_centers
  pub cost_centers : db'.cost_centers ≡ db.cost_centers
  pub corporate_cards : db'.corporate_cards ≡ db.corporate_cards
  pub card_transactions : db'.card_transactions ≡ db.card_transactions
  pub api_keys : db'.api_keys ≡ db.api_keys

-- One new row of the history, by who did what to which entity between which states.
abbrev pub Logged :
    EntityType → ℕ → ℕ → ActivityAction → Option String → Option String → Db → Db → Type 0
Logged entity_type entity_id actor_id action from_status to_status db db' =
    (entry : ActivityLog) × (db'.activity_logs.rows ≡ entry ∷ db.activity_logs.rows)
    × (entry.entity_type ≡ entity_type)
    × (entry.entity_id ≡ entity_id)
    × (entry.actor_id ≡ actor_id)
    × (entry.action ≡ action)
    × (entry.from_status ≡ from_status)
    × (entry.to_status ≡ to_status)

-- One new unread notification for the recipient, none where there is none or it is the actor.
abbrev pub Notified : Option ℕ → ℕ → Table Notification → Table Notification → Type 0
Notified none actor_id notes notes' = notes' ≡ notes
Notified (some user_id) actor_id notes notes' =
    if user_id == actor_id
    then notes' ≡ notes
    else (note : Notification) × (notes'.rows ≡ note ∷ notes.rows)
      × (note.user_id ≡ user_id)
      × (note.is_read ≡ false)

abbrev pub recipient_of : Option NotifySpec → Option ℕ
recipient_of none = none
recipient_of (some notify) = some notify.user_id

-- `db'` is `db` with one transition recorded, and nothing else changed.
pub record Recorded (entity_type : EntityType) (entity_id actor_id : ℕ) (action : ActivityAction)
    (from_status to_status : Option String) (recipient : Option ℕ) (db db' : Db) : Type 0 where
  pub trips : db'.trips ≡ db.trips
  pub expense_reports : db'.expense_reports ≡ db.expense_reports
  pub expense_items : db'.expense_items ≡ db.expense_items
  pub masters : SameMasters db db'
  pub logged : Logged entity_type entity_id actor_id action from_status to_status db db'
  pub notified : Notified recipient actor_id db.notifications db'.notifications

module _ (actor_id : ℕ) (db : Db) where
  add_notification-Notified :
      (notify : Option NotifySpec)
      → Notified
          (recipient_of notify)
          actor_id
          db.notifications
          (add_notification actor_id notify db).notifications
  unfolding add_notification insert
  add_notification-Notified none = refl
  add_notification-Notified (some notify) = elim (Bool-cases (notify.user_id == actor_id)) [
    | inl self ↦ rw self
    | inr other ↦ rw other (notification db.notifications.next_id notify, refl, refl, refl)
  ]

  add_notification-activity_logs :
      (notify : Option NotifySpec)
      → (add_notification actor_id notify db).activity_logs ≡ db.activity_logs
  unfolding add_notification
  add_notification-activity_logs notify = ground arith

pub write_transition-Recorded :
    (entity_type : EntityType) (entity_id actor_id : ℕ) (action : ActivityAction)
    (from_status to_status memo : Option String) (notify : Option NotifySpec) (db : Db)
    → Recorded entity_type entity_id actor_id action from_status to_status
        (recipient_of notify)
        db
        (write_transition entity_type entity_id actor_id action from_status to_status memo notify
          db)
unfolding write_transition insert add_log
write_transition-Recorded entity_type entity_id actor_id action from to memo notify db = record {
  trips = ground arith;
  expense_reports = ground arith;
  expense_items = ground arith;
  masters = ground arith;
  logged = (
    log_entry entity_type entity_id actor_id action from to memo db.activity_logs.next_id,
    ap (λ (t : Table ActivityLog). t.rows) (add_notification-activity_logs actor_id _ notify),
    refl,
    refl,
    refl,
    refl,
    refl,
    refl,
  );
  notified =
      add_notification-Notified actor_id
        (add_log entity_type entity_id actor_id action from to memo db) notify;
}
