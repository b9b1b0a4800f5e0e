-- ===== src/Expense/Flow/Refines.antt =====
-- The services that move a report against the step relation.
use skon_biztrip_web.Base.{ℕ, String, strip, ◌≡◌, refl, ap, some, none, arith, Option, ℤ, ◌≤ℤ◌}
use skon_biztrip_web.Clock.{Clock}
use skon_biztrip_web.Enums.{trip_status_value, ExpenseReportStatus}
use skon_biztrip_web.Errors.{ok, ◌>>◌}
use skon_biztrip_web.Db.Table.{Table, get}
use skon_biztrip_web.Db.Rows.{User, Trip, ExpenseReport, trip_entity, expense_report_entity}
use skon_biztrip_web.Db.Session.{Db, handle}
use skon_biztrip_web.Db.Session.Ends.{
  Ensures, Ends-handle, Ends-query, Ends-flush, Ends-commit, Ends-lift, Ends-try_query,
  Ends-query_bind, Ends-nest,
}
use skon_biztrip_web.History.Laws.{write_transition-Recorded}
use skon_biztrip_web.Trip.Rules.Laws.{
  assert_has_approver-eq, assert_reject_reason-strip, system-settled,
}
use skon_biztrip_web.Trip.Flow.{settle_trip_for_report}
use skon_biztrip_web.Expense.Rules.{max_report_total, assert_report_total, sum_included}
use skon_biztrip_web.Expense.Rules.Laws.{
  Permitted, allowed-Permitted, assert_trip_completed-status, assert_has_items-lt,
  sum_included-total, total,
}
use skon_biztrip_web.Expense.Edit.{save_report}
use skon_biztrip_web.Expense.View.{load_visible_report, recalc_total, amounts_of}
use skon_biztrip_web.Expense.Flow.{
  ReportCommand, assert_transition, trip_of, submit_report, approve_report, reject_report,
  as_submitted, as_approved, as_rejected, approve_notice, reopen_report, run_command,
}
use skon_biztrip_web.Expense.Flow.Spec.{Step, Moved}

pub load_visible_report-get :
    (user : User) (k : ℕ) (db : Db) (r : ExpenseReport)
    → load_visible_report k user db ≡ ok r
    → get k db.expense_reports ≡ some r
unfolding load_visible_report
load_visible_report-get user k db r h = ground arith

trip_of-get :
    (r : ExpenseReport) (db : Db) (t : Trip) → trip_of r db ≡ ok t → get r.trip_id db.trips ≡ some t
unfolding trip_of
trip_of-get r db t h = ground arith

module _ (r : ExpenseReport) (sum : ℤ) where
  assigned :
      (saved : ExpenseReport)
      → (assert_report_total sum >> ok (record r { total_amount_krw = sum })) ≡ ok saved
      → (saved ≡ record r { total_amount_krw = sum }) × (sum ≤ℤ max_report_total)
  unfolding assert_report_total
  assigned saved h = ground arith

-- The recomputed total is the sum over the report's items, within the limit.
pub recalc_total-total :
    (r saved : ExpenseReport) (db : Db)
    → recalc_total r db ≡ ok saved
    → (saved ≡ record r { total_amount_krw = total (amounts_of r.id db.expense_items.rows) })
      × (total (amounts_of r.id db.expense_items.rows) ≤ℤ max_report_total)
unfolding recalc_total
recalc_total-total r saved db h =
    rw (← sum_included-total (amounts_of r.id db.expense_items.rows))
      (assigned r (sum_included (amounts_of r.id db.expense_items.rows)) saved h)

module _ (user : User) (r : ExpenseReport) (target : ExpenseReportStatus) where
  permission :
      assert_transition r user target ≡ ok tt
      → Permitted user.id r.user_id r.approver_id r.status target
  unfolding assert_transition
  permission h = allowed-Permitted user.id r.user_id r.approver_id r.status target h

-- Each state is entered from one state, by one kind of actor.
module _ {user_id owner_id : ℕ} {approver_id : Option ℕ} where
  to_submitted :
      {from : ExpenseReportStatus}
      → Permitted user_id owner_id approver_id from ExpenseReportStatus.submitted
      → (from ≡ ExpenseReportStatus.draft) × (user_id ≡ owner_id)
  to_submitted (Permitted.submit h) = (refl, h)

  to_approved :
      {from : ExpenseReportStatus}
      → Permitted user_id owner_id approver_id from ExpenseReportStatus.approved
      → (from ≡ ExpenseReportStatus.submitted) × (approver_id ≡ some user_id)
  to_approved (Permitted.approve h) = (refl, h)

  to_rejected :
      {from : ExpenseReportStatus}
      → Permitted user_id owner_id approver_id from ExpenseReportStatus.rejected
      → (from ≡ ExpenseReportStatus.submitted) × (approver_id ≡ some user_id)
  to_rejected (Permitted.reject h) = (refl, h)

  to_draft :
      {from : ExpenseReportStatus}
      → Permitted user_id owner_id approver_id from ExpenseReportStatus.draft
      → (from ≡ ExpenseReportStatus.rejected) × (user_id ≡ owner_id)
  to_draft (Permitted.reopen h) = (refl, h)

module _ (clock : Clock) (user : User) (k : ℕ) (db : Db) where
  reopen_report-Moved :
      Ensures db (Moved clock user k ReportCommand.reopen db) (handle (reopen_report user k) db)
  unfolding reopen_report
  reopen_report-Moved = Ends-handle _ (
      Ends-try_query _ _ _ refl λ r seen. Ends-lift _ _ _ refl λ _ allowed. Ends-flush _ _ _ (
        Ends-flush _ _ _ (
          Ends-commit _ _ (
            Ends-query _ _ (
              r,
              _,
              _,
              load_visible_report-get user k db r seen,
              let (from, who) = to_draft (permission user r ExpenseReportStatus.draft allowed) in
                  Step.reopen r from who,
              write_transition-Recorded _ _ _ _ _ _ _ _ _,
              refl,
            )))))

  submit_report-Moved :
      Ensures db
        (Moved clock user k ReportCommand.submit db)
        (handle (submit_report clock user k) db)
  unfolding submit_report
  submit_report-Moved = Ends-handle _ (
      Ends-try_query _ _ _ refl λ r seen. Ends-lift _ _ _ refl λ _ allowed.
        Ends-try_query _ _ _ refl λ t trip. Ends-lift _ _ _ refl λ _ completed.
          Ends-lift _ _ _ refl λ _ _. Ends-try_query _ _ _ refl λ _ _.
            Ends-try_query _ _ _ refl λ _ _. Ends-query_bind _ _ _ (
              Ends-lift _ _ _ refl λ _ filled. Ends-try_query _ _ _ refl λ counted recalc.
                Ends-lift _ _ _ refl λ approver found. Ends-flush _ _ _ (
                  Ends-flush _ _ _ (
                    Ends-commit _ _ (
                      Ends-query _ _ (
                        let (same, bounded) = recalc_total-total r counted db recalc in
                        rw same (
                          r,
                          as_submitted approver clock.now (record r {
                            total_amount_krw = total (amounts_of r.id db.expense_items.rows);
                          }),
                          _,
                          load_visible_report-get user k db r seen,
                          let (from, who) =
                                to_submitted
                                  (permission user r ExpenseReportStatus.submitted allowed) in
                              Step.submit r t approver from who (trip_of-get r db t trip)
                                (assert_trip_completed-status _ completed)
                                (assert_has_approver-eq _ _ found) (assert_has_items-lt _ filled)
                                bounded,
                          write_transition-Recorded _ _ _ _ _ _ _ _ _,
                          refl,
                        )))))))

  approve_report-Moved :
      Ensures db
        (Moved clock user k ReportCommand.approve db)
        (handle (approve_report clock user k) db)
  unfolding approve_report settle_trip_for_report save_report
  approve_report-Moved = Ends-handle _ (
      Ends-try_query _ _ _ refl λ r seen. Ends-lift _ _ _ refl λ _ allowed.
        Ends-try_query _ _ _ refl λ t trip. Ends-flush _ _ _ (
          Ends-flush _ _ _ (
            Ends-nest _ _ _ _ (
              Ends-lift _ _ _ refl λ _ system. Ends-nest _ _ _ _ (
                Ends-flush _ _ _ (
                  Ends-flush _ _ _ (
                    Ends-commit _ _ (
                      Ends-query _ _ (
                        let done = (system-settled _ _ system).0 in
                        let first_record =
                          write_transition-Recorded _ _ _ _ _ _ none
                            (some (approve_notice t (as_approved clock.now r)))
                            (save_report (as_approved clock.now r) db) in
                        (
                          r,
                          as_approved clock.now r,
                          _,
                          load_visible_report-get user k db r seen,
                          (let (from, who) =
                                to_approved
                                  (permission user r ExpenseReportStatus.approved allowed) in
                              Step.approve r t from who (trip_of-get r db t trip) done),
                          first_record,
                          (
                            t,
                            found t _ r (trip_of-get r db t trip) first_record.trips,
                            done,
                            rw (← ap trip_status_value done)
                                (write_transition-Recorded _ _ _ _ _ _ _ _ _),
                          ),
                        ))))))))))
    where
      found :
          (t : Trip) (trips : Table Trip) (r : ExpenseReport)
          → get r.trip_id db.trips ≡ some t
          → trips ≡ (save_report (as_approved clock.now r) db).trips
          → get r.trip_id trips ≡ some t
      found t trips r h same = rw same h

  reject_report-Moved :
      (reason : String)
      → Ensures db
          (Moved clock user k (ReportCommand.reject reason) db)
          (handle (reject_report user k reason) db)
  unfolding reject_report
  reject_report-Moved reason = Ends-handle _ (
      Ends-try_query _ _ _ refl λ r seen. Ends-lift _ _ _ refl λ _ allowed.
        Ends-lift _ _ _ refl λ text given. Ends-try_query _ _ _ refl λ _ _. Ends-flush _ _ _ (
          Ends-flush _ _ _ (
            Ends-commit _ _ (
              Ends-query _ _ (
                let (same, filled) = assert_reject_reason-strip reason text given in
                rw same (
                  r,
                  as_rejected (strip reason) r,
                  _,
                  load_visible_report-get user k db r seen,
                  let (from, who) =
                        to_rejected (permission user r ExpenseReportStatus.rejected allowed) in
                      Step.reject r reason from who (rw same at filled),
                  write_transition-Recorded _ _ _ _ _ _ _ _ _,
                  refl,
                ))))))

-- A request that moves a report either makes one step of the state diagram on the report that it
-- names, with one row of history and one notification to the recipient unless that is the actor; an
-- approval also settles the report's completed trip, with a row of history of its own; nothing else
-- changes. Or it answers an error that it raised before it stored anything, and the database is as
-- it was.
pub run_report_command-Moved :
    (command : ReportCommand) (clock : Clock) (user : User) (k : ℕ) (db : Db)
    → Ensures db (Moved clock user k command db) (handle (run_command command clock user k) db)
unfolding run_command
run_report_command-Moved ReportCommand.submit clock user k db = submit_report-Moved clock user k db
run_report_command-Moved ReportCommand.approve clock user k db =
    approve_report-Moved clock user k db
run_report_command-Moved (ReportCommand.reject reason) clock user k db =
    reject_report-Moved clock user k db reason
run_report_command-Moved ReportCommand.reopen clock user k db = reopen_report-Moved clock user k db
