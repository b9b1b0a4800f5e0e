-- ===== src/Tests/Tokens.antt =====
-- Tokens of the tests: the whole hours and seconds of the expiry, each as so many letters, and the subject.
use Prim.Native.Char.{Char, code}
use skon_biztrip_web.Base.{
  ℕ, zero, suc, String, ◌+◌, ◌*◌, ◌/◌, ◌%◌, ◌<◌, ◌≡◌, ◌∙◌, refl, ap, true, ltb, ◌==◌, str_eq, arith,
  if◌then◌else◌,
}
use skon_biztrip_web.Auth.Login.{second}
use skon_biztrip_web.Auth.Principal.{Claims}

abbrev marks : Char → ℕ → String → String
marks c zero rest = rest
marks c (suc n) rest = String.◌∷◌ c (marks c n rest)

-- The marks that a text starts with, counted and left out.
abbrev read_marks : Char → String → ℕ × String
read_marks c String.[] = (0, "")
read_marks c (String.◌∷◌ x s) =
    let rest = read_marks c s in
    if code x == code c then (suc rest.0, rest.1) else (0, String.◌∷◌ x s)

read_marks-marks :
    (c : Char) (n : ℕ) (rest : String)
    → read_marks c rest ≡ (0, rest)
    → read_marks c (marks c n rest) ≡ (n, rest)
read_marks-marks c zero rest h = h
read_marks-marks c (suc n) rest h =
    let same : (code c == code c) ≡ true = ground arith in
    rw same (rw (read_marks-marks c n rest h) refl)

abbrev pub encoded : String → ℕ → String
encoded sub expiry = marks "h" (expiry / second / 3600) (marks "s" (expiry / second % 3600) sub)

abbrev claims_of : ℕ → ℕ → ℕ × String → Claims
claims_of now hours (seconds, sub) =
    if ltb now ((hours * 3600 + seconds) * second)
    then (if str_eq sub "1" then Claims.subject 1 else Claims.unreadable)
    else Claims.expired_signature

abbrev after_hours : ℕ → ℕ × String → Claims
after_hours now (hours, rest) = claims_of now hours (read_marks "s" rest)

abbrev pub decoded : ℕ → String → Claims
decoded now token = after_hours now (read_marks "h" token)

no_hours : (n : ℕ) → read_marks "h" (marks "s" n "1") ≡ (0, marks "s" n "1")
no_hours zero = refl
no_hours (suc n) = refl

pub decoded-encoded :
    (now expiry : ℕ)
    → now < expiry / second * second
    → decoded now (encoded "1" expiry) ≡ Claims.subject 1
decoded-encoded now expiry fresh =
    let seconds = expiry / second in
    let whole : seconds / 3600 * 3600 + seconds % 3600 ≡ seconds = omega arith in
    let early : ltb now ((seconds / 3600 * 3600 + seconds % 3600) * second) ≡ true =
      rw whole (ground arith) in
    ap (after_hours now) (
      read_marks-marks "h" (seconds / 3600) (marks "s" (seconds % 3600) "1")
        (no_hours (seconds % 3600)))
    ∙ ap (claims_of now (seconds / 3600)) (read_marks-marks "s" (seconds % 3600) "1" refl)
    ∙ rw early refl

-- A token of half past an hour is refused from the last whole second on.
expired_test : decoded 5400000000 (encoded "1" 5400000999) ≡ Claims.expired_signature
expired_test = refl
