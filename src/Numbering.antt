-- ===== src/Numbering.antt =====
-- Document numbers (backend/app/services/numbering.py): the greatest number of the year, plus one.
use Prim.Native.Char.{code}
use Prim.Native.String.{compare}
use Prim.Native.Nat.{Ordering}
use skon_biztrip_web.Base.{
  ℕ, ◌+◌, ◌-◌, ◌*◌, ◌≡◌, refl, String, ◌&&◌, Option, none, some, List, [], ◌∷◌, map, leb, ltb, ◌==◌,
  if◌then◌else◌, decimal, join,
}
use skon_biztrip_web.Errors.{Result, ok, err, unexpected}
use skon_biztrip_web.Clock.{year_of}
use skon_biztrip_web.Db.Rows.{Trip, ExpenseReport}
use skon_biztrip_web.Db.Session.{Db}

-- What stands after a prefix in a text that LIKE 'prefix%' selects.
abbrev pub after_prefix : String → String → Option String
after_prefix String.[] s = some s
after_prefix (String.◌∷◌ p ps) String.[] = none
after_prefix (String.◌∷◌ p ps) (String.◌∷◌ c s) =
    let rest = after_prefix ps s in if code p == code c then rest else none

-- The greater of two texts, by code points.
abbrev pub max_text : String → String → String
max_text s t = elim (compare s t) [ Ordering.lt ↦ t | _ ↦ s ]

-- `func.max` over the rests of the selected numbers, which share their prefix.
abbrev pub max_rest : String → List String → Option String
max_rest prefix [] = none
max_rest prefix (number ∷ nos) = elim (after_prefix prefix number) [
  | none ↦ max_rest prefix nos
  | some rest ↦ elim (max_rest prefix nos) [
    | none ↦ some rest
    | some other ↦ some (max_text rest other)
  ]
]

-- The digits of `int(text)`; `none` is a ValueError.
abbrev pub scan_digits : ℕ → String → Option ℕ
scan_digits n String.[] = some n
scan_digits n (String.◌∷◌ c s) =
    let rest = scan_digits (n * 10 + (code c - 48)) s in
    if leb 48 (code c) && leb (code c) 57 then rest else none

abbrev pub parse_int : String → Option ℕ
parse_int String.[] = none
parse_int (String.◌∷◌ c s) = scan_digits 0 (String.◌∷◌ c s)

-- `f"{n:04d}"`
abbrev pub pad4 : ℕ → String
pad4 n =
    if ltb n 10
    then join ("000" ∷ decimal n ∷ [])
    else if ltb n 100
    then join ("00" ∷ decimal n ∷ [])
    else if ltb n 1000
    then join ("0" ∷ decimal n ∷ [])
    else decimal n

-- `int(last[len(prefix):]) + 1 if last else 1`
abbrev pub sequence_after : Option String → Result ℕ
sequence_after none = ok 1
sequence_after (some rest) = elim (parse_int rest) [
  | none ↦ err (unexpected "ValueError")
  | some n ↦ ok (n + 1)
]

next_no : String → List String → Result String
next_no prefix nos = elim (sequence_after (max_rest prefix nos)) [
  | ok sequence ↦ ok (join (prefix ∷ pad4 sequence ∷ []))
  | err e ↦ err e
]

abbrev trip_prefix : ℕ → String
trip_prefix today = join ("BT-" ∷ decimal (year_of today) ∷ "-" ∷ [])

abbrev report_prefix : ℕ → String
report_prefix today = join ("EX-" ∷ decimal (year_of today) ∷ "-" ∷ [])

unfoldable pub next_trip_no : ℕ → Db → Result String
unfolding next_no year_of decimal join
next_trip_no today db = next_no (trip_prefix today) (map (λ (t : Trip). t.trip_no) db.trips.rows)

unfoldable pub next_report_no : ℕ → Db → Result String
unfolding next_no year_of decimal join
next_report_no today db =
    next_no (report_prefix today) (map (λ (r : ExpenseReport). r.report_no) db.expense_reports.rows)

next_no_test :
    next_no "BT-2026-" ("BT-2026-0009" ∷ "BT-2025-0044" ∷ "BT-2026-0010" ∷ []) ≡ ok "BT-2026-0011"
unfolding next_no decimal join
next_no_test = refl

-- Past four digits the texts no longer sort as the numbers do.
next_no_repeats : next_no "BT-2026-" ("BT-2026-9999" ∷ "BT-2026-10000" ∷ []) ≡ ok "BT-2026-10000"
unfolding next_no decimal join
next_no_repeats = refl
