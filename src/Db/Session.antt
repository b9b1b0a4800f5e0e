-- ===== src/Db/Session.antt =====
-- A request's database session (backend/app/db.py): what it sees, what it has committed, and the
-- services as actions of it. A service that raises leaves its uncommitted changes behind, and the
-- end of the request throws them away.
pub mod Ends
pub mod Results
use skon_biztrip_web.Errors.{Result, ok, err}
use skon_biztrip_web.Db.Table.{Table}
use skon_biztrip_web.Db.Rows.{
  Department, User, CodeGroup, Code, Center, Trip, CorporateCard, CardTransaction, ExpenseReport,
  ExpenseItem, Notification, ActivityLog, ApiKey,
}

pub record Db : Type 0 where
  pub departments : Table Department
  pub users : Table User
  pub code_groups : Table CodeGroup
  pub codes : Table Code
  pub fund_centers : Table Center
  pub cost_centers : Table Center
  pub trips : Table Trip
  pub corporate_cards : Table CorporateCard
  pub card_transactions : Table CardTransaction
  pub expense_reports : Table ExpenseReport
  pub expense_items : Table ExpenseItem
  pub notifications : Table Notification
  pub activity_logs : Table ActivityLog
  pub api_keys : Table ApiKey

-- `current` is the database as the open transaction sees it, flushed changes included.
pub record Session : Type 0 where
  pub committed : Db
  pub current : Db

abbrev pub Service : Type 0 → Type 0
Service A = Session → Result A × Session

module _ {A : Type 0} where
  unfoldable pub pure : A → Service A
  pure a s = (ok a, s)

  -- A check that reads no database.
  unfoldable pub lift : Result A → Service A
  lift r s = (r, s)

  -- A query.
  unfoldable pub query : (Db → A) → Service A
  query f s = (ok (f s.current), s)

  -- A check that queries the database.
  unfoldable pub try_query : (Db → Result A) → Service A
  try_query f s = (f s.current, s)

-- Changed and new objects, flushed.
unfoldable pub flush : (Db → Db) → Service (Unit {0})
flush f s = (ok tt, record s { current = f s.current })

-- A flush that the constraints of the database may refuse.
unfoldable pub try_flush : (Db → Result Db) → Service (Unit {0})
try_flush f s = elim (f s.current) [
  | ok db ↦ (ok tt, record s { current = db })
  | err e ↦ (err e, s)
]

-- `session.commit()`
unfoldable pub commit : Service (Unit {0})
commit s = (ok tt, record s { committed = s.current })

infixl 5 ◌>>=◌ ◌>>◌
-- Opening this opens the actions above too.
unfoldable pub ◌>>=◌ : {A B : Type 0} → Service A → (A → Service B) → Service B
unfolding pure lift query try_query flush try_flush commit
◌>>=◌ m f s = let (r, s') = m s in elim r [ ok a ↦ f a s' | err e ↦ (err e, s') ]

abbrev pub ◌>>◌ : {B : Type 0} → Service (Unit {0}) → Service B → Service B
m >> k = m >>= λ _. k

abbrev pub opened : Db → Session
opened db = record { committed = db; current = db }

-- A request: the session opens on the stored database, and what was not committed when it closes
-- is lost.
unfoldable pub handle : {A : Type 0} → Service A → Db → Result A × Db
handle m db = let (r, s) = m (opened db) in (r, s.committed)
