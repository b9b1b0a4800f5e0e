-- ===== src/Trip/Rules/Laws.antt =====
-- What each check of the trip rules lets through.
use skon_biztrip_web.Base.{
  ℕ, String, ◌≡◌, refl, ◌≤◌, ◌<◌, false, ◌↔◌, Option, some, arith, strip, is_empty,
}
use skon_biztrip_web.Enums.{TripStatus}
use skon_biztrip_web.Errors.{ok}
use skon_biztrip_web.Trip.Rules.{
  assert_date_range, assert_completable, assert_reject_reason, assert_has_approver,
  assert_transition_allowed, assert_system_transition, assert_trip_owner,
}

pub assert_date_range-le : (s e : ℕ) → assert_date_range s e ≡ ok tt → s ≤ e
unfolding assert_date_range
assert_date_range-le s e h = ground arith

pub le-assert_date_range : (s e : ℕ) → s ≤ e → assert_date_range s e ≡ ok tt
unfolding assert_date_range
le-assert_date_range s e h = ground arith

pub assert_completable-lt : (d today : ℕ) → assert_completable d today ≡ ok tt → d < today
unfolding assert_completable
assert_completable-lt d today h = ground arith

pub lt-assert_completable : (d today : ℕ) → d < today → assert_completable d today ≡ ok tt
unfolding assert_completable
lt-assert_completable d today h = ground arith

pub assert_has_approver-eq :
    (manager_id : Option ℕ) (m : ℕ) → assert_has_approver manager_id ≡ ok m → manager_id ≡ some m
unfolding assert_has_approver
assert_has_approver-eq manager_id m h = ground arith

pub eq-assert_has_approver :
    (manager_id : Option ℕ) (m : ℕ) → manager_id ≡ some m → assert_has_approver manager_id ≡ ok m
unfolding assert_has_approver
eq-assert_has_approver manager_id m h = ground arith

pub assert_trip_owner-eq :
    (user_id owner_id : ℕ) → assert_trip_owner user_id owner_id ≡ ok tt → user_id ≡ owner_id
unfolding assert_trip_owner
assert_trip_owner-eq user_id owner_id h = ground arith

pub assert_reject_reason-strip :
    (reason text : String)
    → assert_reject_reason (some reason) ≡ ok text
    → (text ≡ strip reason) × (is_empty text ≡ false)
unfolding assert_reject_reason
assert_reject_reason-strip reason text h = ground arith

pub strip-assert_reject_reason :
    (reason : String)
    → is_empty (strip reason) ≡ false
    → assert_reject_reason (some reason) ≡ ok (strip reason)
unfolding assert_reject_reason
strip-assert_reject_reason reason h = ground arith

-- Who may move a trip from one state to another, by the state diagram.
pub data Permitted (user_id owner_id : ℕ) (approver_id : Option ℕ)
    : TripStatus → TripStatus → Type 0 where
  submit :
      user_id ≡ owner_id
      → Permitted user_id owner_id approver_id TripStatus.draft TripStatus.submitted
  approve :
      approver_id ≡ some user_id
      → Permitted user_id owner_id approver_id TripStatus.submitted TripStatus.approved
  reject :
      approver_id ≡ some user_id
      → Permitted user_id owner_id approver_id TripStatus.submitted TripStatus.rejected
  reopen :
      user_id ≡ owner_id
      → Permitted user_id owner_id approver_id TripStatus.rejected TripStatus.draft
  complete :
      user_id ≡ owner_id
      → Permitted user_id owner_id approver_id TripStatus.approved TripStatus.completed

module _ (user_id owner_id : ℕ) (approver_id : Option ℕ) where
  pub allowed-Permitted :
      (current target : TripStatus)
      → assert_transition_allowed current target user_id owner_id approver_id ≡ ok tt
      → Permitted user_id owner_id approver_id current target
  unfolding assert_transition_allowed
  allowed-Permitted TripStatus.draft TripStatus.submitted h = submit (ground arith)
  allowed-Permitted TripStatus.submitted TripStatus.approved h = approve (ground arith)
  allowed-Permitted TripStatus.submitted TripStatus.rejected h = reject (ground arith)
  allowed-Permitted TripStatus.rejected TripStatus.draft h = reopen (ground arith)
  allowed-Permitted TripStatus.approved TripStatus.completed h = complete (ground arith)
  allowed-Permitted _ _ h = absurd (ground arith)

  pub Permitted-allowed :
      {current target : TripStatus}
      → Permitted user_id owner_id approver_id current target
      → assert_transition_allowed current target user_id owner_id approver_id ≡ ok tt
  unfolding assert_transition_allowed
  Permitted-allowed (submit h) = ground arith
  Permitted-allowed (approve h) = ground arith
  Permitted-allowed (reject h) = ground arith
  Permitted-allowed (reopen h) = ground arith
  Permitted-allowed (complete h) = ground arith

-- A user may move a trip from one state to another exactly as the state diagram permits: the
-- applicant submits, reopens and completes, the trip's own approver approves and rejects, and
-- nobody does anything else.
pub assert_transition_allowed-Permitted :
    (current target : TripStatus) (user_id owner_id : ℕ) (approver_id : Option ℕ)
    → (assert_transition_allowed current target user_id owner_id approver_id ≡ ok tt)
      ↔ Permitted user_id owner_id approver_id current target
assert_transition_allowed-Permitted current target user_id owner_id approver_id = (
  allowed-Permitted user_id owner_id approver_id current target,
  Permitted-allowed user_id owner_id approver_id,
)

pub system-settled :
    (current target : TripStatus)
    → assert_system_transition current target ≡ ok tt
    → (current ≡ TripStatus.completed) × (target ≡ TripStatus.settled)
unfolding assert_system_transition
system-settled TripStatus.completed TripStatus.settled h = (refl, refl)
system-settled _ _ h = absurd (ground arith)

-- The system's own transition is the settlement of a completed trip and no other; and no user, in
-- whatever role toward the trip, may make it.
pub assert_system_transition-settled :
    (current target : TripStatus) (user_id owner_id : ℕ) (approver_id : Option ℕ)
    → assert_system_transition current target ≡ ok tt
    → (current ≡ TripStatus.completed)
      × (target ≡ TripStatus.settled)
      × ¬ (assert_transition_allowed current target user_id owner_id approver_id ≡ ok tt)
unfolding assert_transition_allowed
assert_system_transition-settled current target user_id owner_id approver_id h =
    let (c, t) = system-settled current target h in (c, t, λ allowed. ground arith)
