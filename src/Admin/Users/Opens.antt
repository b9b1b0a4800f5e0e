-- ===== src/Admin/Users/Opens.antt =====
-- An approval and the log-in after it.
use skon_biztrip_web.Base.{ℕ, String, ◌≡◌, refl, Bool, true, some, sym, ap, ◌∙◌, arith}
use mathlib.Core.Path.{subst}
use skon_biztrip_web.Errors.{ok, is_ok}
use skon_biztrip_web.Db.Table.{get}
use skon_biztrip_web.Db.Table.Laws.{get-ident, get-put}
use skon_biztrip_web.Db.Rows.{User, user_entity}
use skon_biztrip_web.Db.Session.{Db, handle, ◌>>=◌}
use skon_biztrip_web.Db.Session.Ends.{Ensures}
use skon_biztrip_web.Users.Signup.{by_email}
use skon_biztrip_web.Auth.Login.{login, to_user_out}
use skon_biztrip_web.Admin.Users.Values.{UserApprove, approved}
use skon_biztrip_web.Admin.Users.{AdminUserOut, approve_user, save_user}
use skon_biztrip_web.Admin.Users.Laws.{Approved, approve_user-Approved}

module _ (verify_password : String → String → Bool) (dummy_hash : String)
    (jwt_encode : String → ℕ → String) (expire_hours : ℕ) (now : ℕ) where
  opened_account :
      (payload : UserApprove) (email password : String) (user : User) (db : Db)
      → by_email email db ≡ some (approved payload user)
      → verify_password password user.password_hash ≡ true
      → is_ok
          (handle
            (login verify_password dummy_hash jwt_encode expire_hours now
              (record { email = email; password = password }))
            db).0
        ≡ true
  unfolding login handle ◌>>=◌ to_user_out
  opened_account payload email password user db found valid = ground arith

saved_user :
    (user_id : ℕ) (user new : User) (db : Db)
    → get user_id db.users ≡ some user
    → new.id ≡ user.id
    → get user_id (save_user new db).users ≡ some new
unfolding save_user
saved_user user_id user new db found same =
    let at_id = get-ident user_id db.users user found in get-put user_id new db.users ∙ ground arith

-- Who knows the password that an application set logs in once an administrator has approved it, where
-- the row of the account is the one that its e-mail finds.
pub approve_user-login :
    (verify_password : String → String → Bool) (dummy_hash : String)
    (jwt_encode : String → ℕ → String) (expire_hours : ℕ) (now : ℕ) (user_id : ℕ)
    (payload : UserApprove) (password : String) (user : User) (db : Db) (out : AdminUserOut)
    (db' : Db)
    → get user_id db.users ≡ some user
    → handle (approve_user user_id payload) db ≡ (ok out, db')
    → by_email user.email db' ≡ get user_id db'.users
    → verify_password password user.password_hash ≡ true
    → is_ok
        (handle
          (login verify_password dummy_hash jwt_encode expire_hours now
            (record { email = user.email; password = password }))
          db').0
      ≡ true
approve_user-login verify_password dummy_hash jwt_encode expire_hours now user_id payload password
      user db out db' found h keyed valid =
    let outcome : Ensures db (Approved user_id payload db) (ok out, db') =
      subst (Ensures db (Approved user_id payload db)) h
        (approve_user-Approved user_id payload db) in
    let (u, at_id, _, _, _, _, same, _) = outcome in
    let is_user : some u ≡ some user = sym at_id ∙ found in
    let same_user : u ≡ user = ground arith in
    let saved : get user_id db'.users ≡ some (approved payload user) =
      ap (λ (d : Db). get user_id d.users) same
      ∙ saved_user user_id u (approved payload u) db at_id refl
      ∙ ap (λ (v : User). some (approved payload v)) same_user in
    opened_account verify_password dummy_hash jwt_encode expire_hours now payload user.email
      password user db' (keyed ∙ saved) valid
