-- ===== src/Trip/Invariant.antt =====
-- What holds of every stored trip between two requests.
pub mod Keeps
use skon_biztrip_web.Base.{ℕ, String, ◌≡◌, ◌≤◌, false, Option, none, some, is_empty, All}
use skon_biztrip_web.Enums.{TripStatus}
use skon_biztrip_web.Db.Rows.{Trip}
use skon_biztrip_web.Db.Session.{Db}

abbrev pub IsFilled : {A : Type 0} → Option A → Type 0
IsFilled none = ⊥
IsFilled (some a) = Unit

-- A reason that is given, and not blank.
abbrev pub IsReason : Option String → Type 0
IsReason none = ⊥
IsReason (some reason) = is_empty reason ≡ false

-- The approver, the two instants and the reason that each state carries.
abbrev pub Stage : TripStatus → Option ℕ → Option ℕ → Option ℕ → Option String → Type 0
Stage TripStatus.draft approver submitted_at approved_at reason =
    (approver ≡ none) × (submitted_at ≡ none) × (approved_at ≡ none)
Stage TripStatus.submitted approver submitted_at approved_at reason =
    IsFilled approver × IsFilled submitted_at × (approved_at ≡ none) × (reason ≡ none)
Stage TripStatus.rejected approver submitted_at approved_at reason =
    IsFilled approver × IsFilled submitted_at × (approved_at ≡ none) × IsReason reason
Stage TripStatus.approved approver submitted_at approved_at reason =
    IsFilled approver × IsFilled submitted_at × IsFilled approved_at × (reason ≡ none)
Stage TripStatus.completed approver submitted_at approved_at reason =
    IsFilled approver × IsFilled submitted_at × IsFilled approved_at × (reason ≡ none)
Stage TripStatus.settled approver submitted_at approved_at reason =
    IsFilled approver × IsFilled submitted_at × IsFilled approved_at × (reason ≡ none)

pub record IsWellFormed (t : Trip) : Type 0 where
  pub dates : t.start_date ≤ t.end_date
  pub stage : Stage t.status t.approver_id t.submitted_at t.approved_at t.reject_reason

abbrev pub TripsAreWellFormed : Db → Type 0
TripsAreWellFormed db = All IsWellFormed db.trips.rows
