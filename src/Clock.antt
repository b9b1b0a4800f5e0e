-- ===== src/Clock.antt =====
-- What the services read of the clock, and the year of a date.
use skon_biztrip_web.Base.{ℕ, ◌+◌, ◌-◌, ◌*◌, ◌/◌, ◌%◌, ◌≡◌, refl, ◌||◌, ◌==◌, if◌then◌else◌}

-- `date.today()`, `datetime.now(timezone.utc)` and the date of the latter.
pub record Clock : Type 0 where
  pub today : ℕ
  pub now : ℕ
  pub utc_today : ℕ

-- `date.fromordinal(n).year`: whole cycles of 400, 100, 4 and 1 years, as CPython counts them.
unfoldable pub year_of : ℕ → ℕ
year_of n =
    let n0 = n - 1 in
    let r400 = n0 % 146097 in
    let n100 = r400 / 36524 in
    let r4 = r400 % 36524 % 1461 in
    let n1 = r4 / 365 in
    let year = 400 * (n0 / 146097) + 100 * n100 + 4 * (r400 % 36524 / 1461) + n1 + 1 in
    if n1 == 4 || n100 == 4 then year - 1 else year

year_of_test : year_of 739616 ≡ 2025
unfolding year_of
year_of_test = refl
