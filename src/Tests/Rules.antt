-- ===== src/Tests/Rules.antt =====
-- The rules of trips and reports at concrete states and actors.
use skon_biztrip_web.Base.{List, All, true, pos, false, some, [], ◌∷◌, ◌≡◌, refl, ◌↔◌}
use skon_biztrip_web.Users.Status.{SignupActor, assert_signup_transition_allowed}
use skon_biztrip_web.Users.Status.Laws.{Allowed, assert_signup_transition_allowed-Allowed}
use skon_biztrip_web.Codes.{CodeSpec, validate_codes}
use skon_biztrip_web.Codes.Laws.{is_code, validate_codes-codes}
use skon_biztrip_web.Tests.Data.{company}
use skon_biztrip_web.Enums.{UserStatus, TripStatus, ExpenseReportStatus}
use skon_biztrip_web.Errors.{ok}
use skon_biztrip_web.Trip.Rules.{assert_transition_allowed, assert_system_transition}
use skon_biztrip_web.Trip.Rules.Laws as TripLaws
use skon_biztrip_web.Trip.Rules.Laws.{
  assert_transition_allowed-Permitted, assert_system_transition-settled,
}
use skon_biztrip_web.Expense.Rules.{assert_expense_transition_allowed, sum_included}
use skon_biztrip_web.Expense.Rules.Laws as ReportLaws
use skon_biztrip_web.Expense.Rules.Laws.{
  assert_expense_transition_allowed-Permitted, sum_included-total, total,
}

assert_transition_allowed-Permitted_example :
    (assert_transition_allowed TripStatus.submitted TripStatus.approved 2 1 (some 2) ≡ ok tt)
    ↔ TripLaws.Permitted 2 1 (some 2) TripStatus.submitted TripStatus.approved
assert_transition_allowed-Permitted_example =
    assert_transition_allowed-Permitted TripStatus.submitted TripStatus.approved 2 1 (some 2)

completed-settled : assert_system_transition TripStatus.completed TripStatus.settled ≡ ok tt
unfolding assert_system_transition
completed-settled = refl

assert_system_transition-settled_example :
    (TripStatus.completed ≡ TripStatus.completed)
    × (TripStatus.settled ≡ TripStatus.settled)
    × ¬ (assert_transition_allowed TripStatus.completed TripStatus.settled 1 1 (some 2) ≡ ok tt)
assert_system_transition-settled_example =
    assert_system_transition-settled TripStatus.completed TripStatus.settled 1 1 (some 2)
      completed-settled

assert_expense_transition_allowed-Permitted_example :
    (assert_expense_transition_allowed ExpenseReportStatus.approved ExpenseReportStatus.draft 1 1
        (some 2)
      ≡ ok tt)
    ↔ ReportLaws.Permitted 1 1 (some 2) ExpenseReportStatus.approved ExpenseReportStatus.draft
assert_expense_transition_allowed-Permitted_example =
    assert_expense_transition_allowed-Permitted ExpenseReportStatus.approved
      ExpenseReportStatus.draft 1 1 (some 2)

sum_included-total_example :
    sum_included ((pos 300, false) ∷ (pos 200, true) ∷ (pos 50, false) ∷ [])
    ≡ total ((pos 300, false) ∷ (pos 200, true) ∷ (pos 50, false) ∷ [])
sum_included-total_example =
    sum_included-total ((pos 300, false) ∷ (pos 200, true) ∷ (pos 50, false) ∷ [])

assert_signup_transition_allowed-Allowed_example :
    (assert_signup_transition_allowed UserStatus.pending UserStatus.active SignupActor.applicant
      ≡ ok tt)
    ↔ Allowed SignupActor.applicant UserStatus.pending UserStatus.active
assert_signup_transition_allowed-Allowed_example =
    assert_signup_transition_allowed-Allowed UserStatus.pending UserStatus.active
      SignupActor.applicant

abbrev country : List CodeSpec
country = ("COUNTRY", "country_code", some "US") ∷ []

country_passes : validate_codes country company ≡ ok tt
unfolding validate_codes
country_passes = refl

validate_codes-codes_example : All (λ (s : CodeSpec). is_code company s ≡ true) country
validate_codes-codes_example = validate_codes-codes country company country_passes
