-- ===== src/Expense/Settled/Keeps.antt =====
-- Each change of a table keeps the approved reports' trips settled.
use skon_biztrip_web.Base.{
  ℕ, ◌≡◌, refl, ◌<◌, ◌+◌, ◌∙◌, ap, sym, Option, none, some, List, [], ◌∷◌, All, arith, ◌==◌,
  if◌then◌else◌, Bool-cases, inl, inr,
}
use skon_biztrip_web.Enums.{TripStatus, ExpenseReportStatus}
use skon_biztrip_web.Db.Table.{Table, get, put, insert, delete}
use skon_biztrip_web.Db.Table.Laws.{
  replaced, get-ident, get-put, get-insert, get-delete, All-put, All-delete, All-get,
}
use skon_biztrip_web.Db.Rows.{Trip, ExpenseReport, trip_entity, expense_report_entity}
use skon_biztrip_web.Expense.Settled.{IsSettled, Closes, ClosesTrip, Settled}

Closes-map :
    (status : ExpenseReportStatus) (found found' : Option Trip)
    → (IsSettled found → IsSettled found')
    → Closes status found
    → Closes status found'
Closes-map ExpenseReportStatus.approved found found' f h = f h
Closes-map ExpenseReportStatus.draft found found' f h = tt
Closes-map ExpenseReportStatus.submitted found found' f h = tt
Closes-map ExpenseReportStatus.rejected found found' f h = tt

ClosesTrip-map :
    (found : Option ExpenseReport) (trips trips' : Table Trip)
    → ((j : ℕ) → IsSettled (get j trips) → IsSettled (get j trips'))
    → ClosesTrip found trips
    → ClosesTrip found trips'
ClosesTrip-map none trips trips' f h = tt
ClosesTrip-map (some r) trips trips' f h = Closes-map r.status _ _ (f r.trip_id) h

numbered_suc :
    (n : ℕ) (rows : List Trip)
    → All (λ (t : Trip). t.id < n) rows
    → All (λ (t : Trip). t.id < n + 1) rows
numbered_suc n [] h = tt
numbered_suc n (t ∷ rows) h = (omega arith, numbered_suc n rows h.1)

module _ (reports : Table ExpenseReport) (trips : Table Trip) (s : Settled reports trips) where
  abbrev IsNumbered : Trip → Type 0
  IsNumbered t = t.id < trips.next_id

  replaced_settled :
      (j : ℕ) (t t' : Trip) (found : Option Trip)
      → get t.id trips ≡ some t
      → t'.id ≡ t.id
      → (t.status ≡ TripStatus.settled → t'.status ≡ TripStatus.settled)
      → get j trips ≡ found
      → IsSettled found
      → IsSettled (replaced (t'.id == j) t' found)
  replaced_settled j t t' none at_t same keep at_j h = absurd h
  replaced_settled j t t' (some x) at_t same keep at_j h = elim (Bool-cases (t'.id == j)) [
    | inr there ↦ rw there h
    | inl here ↦
        let place : t.id ≡ j = ground arith in
        let found : get j trips ≡ some t = ap (λ (i : ℕ). get i trips) (sym place) ∙ at_t in
        rw here (keep (ground arith))
  ]

  -- A saved trip stays settled if it was.
  pub put-Settled :
      (t t' : Trip)
      → get t.id trips ≡ some t
      → t'.id ≡ t.id
      → (t.status ≡ TripStatus.settled → t'.status ≡ TripStatus.settled)
      → Settled reports (put t' trips)
  unfolding put
  put-Settled t t' at_t same keep = record {
    closes = λ k.
        ClosesTrip-map (get k reports) trips _
          (λ j h. rw (get-put j t' trips) (replaced_settled j t t' _ at_t same keep refl h))
          (s.closes k);
    numbered =
        All-put IsNumbered t' trips s.numbered
          (rw same (All-get IsNumbered t.id trips t s.numbered at_t));
  }

  inserted :
      (j : ℕ) (t : Trip) (found : Option Trip)
      → get j trips ≡ found
      → IsSettled found
      → IsSettled (if trips.next_id == j then some t else found)
  inserted j t none at_j h = absurd h
  inserted j t (some x) at_j h =
      let small : x.id < trips.next_id = All-get IsNumbered j trips x s.numbered at_j in
      let place : x.id ≡ j = get-ident j trips x at_j in
      elim (Bool-cases (trips.next_id == j)) [
        | inl here ↦ absurd (ground arith)
        | inr there ↦ rw there h
      ]

  -- A new trip comes under a key that no trip has.
  pub insert-Settled :
      (build : ℕ → Trip)
      → (build trips.next_id).id ≡ trips.next_id
      → Settled reports (insert build trips)
  unfolding insert
  insert-Settled build ident = record {
    closes = λ k.
        ClosesTrip-map (get k reports) trips _
          (λ j h. rw (get-insert j build trips ident) (inserted j _ _ refl h)) (s.closes k);
    numbered = (rw ident (omega arith), numbered_suc trips.next_id trips.rows s.numbered);
  }

  deleted :
      (j : ℕ) (t : Trip)
      → get t.id trips ≡ some t
      → ¬ (t.status ≡ TripStatus.settled)
      → IsSettled (get j trips)
      → IsSettled (get j (delete t.id trips))
  deleted j t at_t unsettled h = elim (Bool-cases (t.id == j)) [
    | inl here ↦
        let place : j ≡ t.id = ground arith in
        let found : get j trips ≡ some t = ap (λ (i : ℕ). get i trips) place ∙ at_t in
        absurd (unsettled (rw found at h))
    | inr there ↦ rw (get-delete j t.id trips (ground arith)) h
  ]

  -- A trip that is not settled may go.
  pub delete-Settled :
      (t : Trip)
      → get t.id trips ≡ some t
      → ¬ (t.status ≡ TripStatus.settled)
      → Settled reports (delete t.id trips)
  unfolding delete
  delete-Settled t at_t unsettled = record {
    closes = λ k.
        ClosesTrip-map (get k reports) trips _ (λ j h. deleted j t at_t unsettled h) (s.closes k);
    numbered = All-delete IsNumbered t.id trips s.numbered;
  }

  put-ClosesTrip :
      (k : ℕ) (r' : ExpenseReport) (found : Option ExpenseReport)
      → Closes r'.status (get r'.trip_id trips)
      → ClosesTrip found trips
      → ClosesTrip (replaced (r'.id == k) r' found) trips
  put-ClosesTrip k r' none new h = tt
  put-ClosesTrip k r' (some r) new h = elim (Bool-cases (r'.id == k)) [
    | inl here ↦ rw here new
    | inr there ↦ rw there h
  ]

  -- A saved report that closes its trip.
  pub put_report-Settled :
      (r' : ExpenseReport)
      → Closes r'.status (get r'.trip_id trips)
      → Settled (put r' reports) trips
  put_report-Settled r' new = record {
    closes = λ k. rw (get-put k r' reports) (put-ClosesTrip k r' _ new (s.closes k));
    numbered = s.numbered;
  }

  -- A new report that closes its trip.
  pub insert_report-Settled :
      (build : ℕ → ExpenseReport)
      → (build reports.next_id).id ≡ reports.next_id
      → ClosesTrip (some (build reports.next_id)) trips
      → Settled (insert build reports) trips
  insert_report-Settled build ident new = record {
    closes = λ k. rw (get-insert k build reports ident) (elim (Bool-cases (reports.next_id == k)) [
      | inl here ↦ rw here new
      | inr there ↦ rw there (s.closes k)
    ]);
    numbered = s.numbered;
  }
