-- ===== src/Users/Signup/Laws.antt =====
-- What an application for an account does to the database.
use skon_biztrip_web.Base.{text_length, String, ◌≡◌, ◌≤◌, refl, Option, none, some, arith}
use skon_biztrip_web.Enums.{UserStatus}
use skon_biztrip_web.Errors.{ok}
use skon_biztrip_web.Db.Table.{put, insert}
use skon_biztrip_web.Db.Rows.{User, user_entity}
use skon_biztrip_web.Db.Session.{Db, handle, opened}
use skon_biztrip_web.Db.Session.Ends.{
  Ensures, Ends, Ends-handle, Ends-pure, Ends-flush, Ends-commit, Ends-lift, Ends-try_query,
  Ends-query_bind,
}
use skon_biztrip_web.Users.Signup.{
  SignupRequest, SignupResponse, utf8_length, assert_password_length, by_email, new_user,
  as_resubmitted, assert_refused, resubmit, register, signup,
}

module _ (hash_password : String → String) (payload : SignupRequest) (db : Db) where
  -- One new account under an e-mail that none had, or the rejected account of that e-mail.
  abbrev pub Stored : Option User → Db → Type 0
  Stored none db' = db' ≡ record db { users = insert (new_user hash_password payload) db.users }
  Stored (some u) db' =
      (u.status ≡ UserStatus.rejected)
      × (db' ≡ record db { users = put (as_resubmitted hash_password payload u) db.users })

  -- The answer is a pending account, and the password has a length that the hash can take.
  abbrev pub Applied : Option User → SignupResponse → Db → Type 0
  Applied existing response db' =
      (response.status ≡ UserStatus.pending)
      × (8 ≤ text_length payload.password)
      × (utf8_length payload.password ≤ 72)
      × Stored existing db'

assert_password_length-le :
    (password : String)
    → assert_password_length password ≡ ok tt
    → (8 ≤ text_length password) × (utf8_length password ≤ 72)
unfolding assert_password_length
assert_password_length-le password h = ground arith

assert_refused-status :
    (status : UserStatus) → assert_refused status ≡ ok tt → status ≡ UserStatus.rejected
assert_refused-status UserStatus.pending h = absurd (ground arith)
assert_refused-status UserStatus.active h = absurd (ground arith)
assert_refused-status UserStatus.rejected h = refl

register-Applied :
    (hash_password : String → String) (payload : SignupRequest) (db : Db) (existing : Option User)
    → 8 ≤ text_length payload.password
    → utf8_length payload.password ≤ 72
    → Ends db
        (Applied hash_password payload db existing)
        (register hash_password existing payload)
        (opened db)
unfolding register resubmit
register-Applied hash_password payload db none low high =
    Ends-flush _ _ _ (Ends-commit _ _ (Ends-pure _ _ (refl, low, high, refl)))
register-Applied hash_password payload db (some u) low high = Ends-lift _ _ _ refl λ _ refused.
    Ends-lift _ _ _ refl λ _ _. Ends-flush _ _ _ (
      Ends-commit _ _
        (Ends-pure _ _ (refl, low, high, (assert_refused-status u.status refused, refl))))

pub signup-Applied :
    (hash_password : String → String) (payload : SignupRequest) (db : Db)
    → Ensures db
        (Applied hash_password payload db (by_email payload.email db))
        (handle (signup hash_password payload) db)
unfolding signup
signup-Applied hash_password payload db = Ends-handle _ (
    Ends-lift _ _ _ refl λ _ valid. Ends-try_query _ _ _ refl λ _ _. Ends-query_bind _ _ _ (
      let (low, high) = assert_password_length-le payload.password valid in
      register-Applied hash_password payload db (by_email payload.email db) low high))
