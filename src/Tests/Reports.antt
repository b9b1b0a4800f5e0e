-- ===== src/Tests/Reports.antt =====
-- Runs of the services on reports, and of the site.
use skon_biztrip_web.Base.{strip, ◌+ℤ◌, true, ◌≡◌, refl}
use skon_biztrip_web.Errors.{is_ok}
use skon_biztrip_web.Db.Session.{handle, ◌>>=◌}
use skon_biztrip_web.Db.Session.Ends.{Ensures}
use skon_biztrip_web.Expense.Flow.{ReportCommand, run_command}
use skon_biztrip_web.Expense.Flow.Spec.{Moved}
use skon_biztrip_web.Expense.Flow.Refines.{run_report_command-Moved}
use skon_biztrip_web.Expense.Edit.{create_report}
use skon_biztrip_web.Expense.Items.{add_item, update_item, delete_item}
use skon_biztrip_web.Expense.Items.Effects.{
  Changed, Removed, update_item-Changed, delete_item-Removed,
}
use skon_biztrip_web.Site.{Request, serve, IsConsistent}
use skon_biztrip_web.Site.Keeps.{serve-IsConsistent}
use skon_biztrip_web.Patch.{merged}
use skon_biztrip_web.Codes.{validate_codes}
use skon_biztrip_web.Centers.{assert_fund_center, assert_cost_center}
use skon_biztrip_web.Numbering.{next_report_no}
use skon_biztrip_web.Db.Table.{get, put, insert, delete}
use skon_biztrip_web.Trip.Rules.{
  assert_trip_owner, can_view_trip, assert_has_approver, assert_system_transition,
}
use skon_biztrip_web.Trip.View.{load_visible_trip}
use skon_biztrip_web.Trip.Flow.{settle_trip_for_report}
use skon_biztrip_web.Expense.Rules.{
  can_view_report, assert_report_owner, assert_report_editable, assert_item_amount,
  assert_report_total, sum_included, assert_report_creatable, assert_expense_transition_allowed,
  assert_trip_completed, assert_centers_present, assert_has_items,
}
use skon_biztrip_web.Expense.View.{load_visible_report, recalc_total, included_count}
use skon_biztrip_web.Expense.Edit.{
  assert_fund_center_if, assert_cost_center_if, assert_no_report, add_report,
}
use skon_biztrip_web.Expense.Items.{
  load_editable_report, load_item, item_amount, insert_item, assert_category_if, assert_amount_if,
  patch_item, save_item, remove_item,
}
use skon_biztrip_web.Expense.Flow.{submit_report, approve_report, assert_transition, trip_of}
use skon_biztrip_web.Tests.Data.{
  clock, minsu, jiyoon, company, waiting, item_payload, item_changes, company-IsConsistent,
}

run_report_command-Moved_example :
    Ensures waiting
      (Moved clock jiyoon 1 ReportCommand.approve waiting)
      (handle (run_command ReportCommand.approve clock jiyoon 1) waiting)
run_report_command-Moved_example =
    run_report_command-Moved ReportCommand.approve clock jiyoon 1 waiting

update_item-Changed_example :
    Ensures company
      (Changed minsu 1 item_changes company)
      (handle (update_item minsu 1 item_changes) company)
update_item-Changed_example = update_item-Changed minsu 1 item_changes company

delete_item-Removed_example :
    Ensures company (Removed minsu 1 company) (handle (delete_item minsu 1) company)
delete_item-Removed_example = delete_item-Removed minsu 1 company

serve-IsConsistent_example :
    IsConsistent (serve (Request.post_item 1 item_payload) clock minsu company)
serve-IsConsistent_example =
    serve-IsConsistent (Request.post_item 1 item_payload) clock minsu company company-IsConsistent

-- Each of the runs succeeds.
add_item_test : is_ok (handle (add_item minsu 1 item_payload) company).0 ≡ true
unfolding handle ◌>>=◌ add_item load_editable_report load_visible_report can_view_report get
    assert_report_owner assert_report_editable validate_codes assert_fund_center_if
    assert_cost_center_if item_amount assert_item_amount insert_item insert recalc_total
    sum_included assert_report_total ◌+ℤ◌
add_item_test = refl

update_item_test : is_ok (handle (update_item minsu 1 item_changes) company).0 ≡ true
unfolding handle ◌>>=◌ update_item load_item load_editable_report load_visible_report
    can_view_report get assert_report_owner assert_report_editable assert_category_if
    assert_fund_center_if assert_cost_center_if assert_amount_if assert_item_amount patch_item
    merged save_item put recalc_total sum_included assert_report_total ◌+ℤ◌
update_item_test = refl

delete_item_test : is_ok (handle (delete_item minsu 1) company).0 ≡ true
unfolding handle ◌>>=◌ delete_item load_item load_editable_report load_visible_report
    can_view_report get assert_report_owner assert_report_editable remove_item delete recalc_total
    sum_included assert_report_total ◌+ℤ◌
delete_item_test = refl

create_report_test : is_ok (handle (create_report clock minsu 4) company).0 ≡ true
unfolding handle ◌>>=◌ create_report load_visible_trip can_view_trip get assert_trip_owner
    assert_report_creatable assert_no_report next_report_no add_report
create_report_test = refl

submit_report_test : is_ok (handle (submit_report clock minsu 1) company).0 ≡ true
unfolding handle ◌>>=◌ submit_report load_visible_report can_view_report get assert_transition
    assert_expense_transition_allowed trip_of assert_trip_completed assert_centers_present
    assert_fund_center assert_cost_center included_count assert_has_items recalc_total sum_included
    assert_report_total assert_has_approver ◌+ℤ◌ strip
submit_report_test = refl

approve_report_test : is_ok (handle (approve_report clock jiyoon 1) waiting).0 ≡ true
unfolding handle ◌>>=◌ approve_report load_visible_report can_view_report get assert_transition
    assert_expense_transition_allowed trip_of settle_trip_for_report assert_system_transition
approve_report_test = refl
