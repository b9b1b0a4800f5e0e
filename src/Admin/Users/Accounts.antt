-- ===== src/Admin/Users/Accounts.antt =====
-- The state of an account and whether it is open, over all requests but an update.
use skon_biztrip_web.Base.{ℕ, String, ◌≡◌, refl, true, false, Option, none, some, All, arith}
use skon_biztrip_web.Enums.{UserStatus}
use skon_biztrip_web.Errors.{Result, ok, err}
use skon_biztrip_web.Db.Table.Laws.{All-get, All-put, All-insert}
use skon_biztrip_web.Db.Rows.{User, user_entity}
use skon_biztrip_web.Db.Session.{Db, handle}
use skon_biztrip_web.Db.Session.Ends.{
  Ensures, Ends-handle, Ends-query, Ends-pure, Ends-flush, Ends-commit, Ends-lift, Ends-try_query,
  Ends-query_bind,
}
use skon_biztrip_web.Users.Signup.{
  SignupRequest, SignupResponse, by_email, signup, new_user, as_resubmitted,
}
use skon_biztrip_web.Users.Signup.Laws.{Stored, Applied, signup-Applied}
use skon_biztrip_web.Admin.Users.Values.{
  AdminUserCreate, UserApprove, created_user, approved, rejected,
}
use skon_biztrip_web.Admin.Users.{
  AdminUserOut, save_user, create_user, approve_user, reject_user, set_password,
}
use skon_biztrip_web.Admin.Users.Laws.{
  Approved, approve_user-Approved, Rejected, reject_user-Rejected, load_user-ok,
}

-- Only an approved account is open.
abbrev pub Consistent : User → Type 0
Consistent user = user.is_active ≡ true → user.status ≡ UserStatus.active

abbrev pub AccountsAreConsistent : Db → Type 0
AccountsAreConsistent db = All Consistent db.users.rows

closed : (u : User) → u.is_active ≡ false → Consistent u
closed u h open_ = absurd (ground arith)

-- The requests that write accounts, without the update.
pub data AccountRequest : Type 0 where
  apply_for : SignupRequest → AccountRequest
  create : AdminUserCreate → AccountRequest
  approve : ℕ → UserApprove → AccountRequest
  reject : ℕ → AccountRequest
  reset_password : ℕ → String → AccountRequest

-- The stored database after such a request.
unfoldable pub serve_account : (String → String) → AccountRequest → Db → Db
serve_account hash_password (apply_for payload) db = (handle (signup hash_password payload) db).1
serve_account hash_password (create payload) db = (handle (create_user hash_password payload) db).1
serve_account hash_password (approve user_id payload) db =
    (handle (approve_user user_id payload) db).1
serve_account hash_password (reject user_id) db = (handle (reject_user user_id) db).1
serve_account hash_password (reset_password user_id password) db =
    (handle (set_password hash_password user_id password) db).1

-- What holds before a request and after one that succeeded holds after any.
kept :
    {A : Type 0} (P : Db → Type 0) (db : Db) (o : Result A × Db)
    → P db
    → Ensures db (λ a db'. P db') o
    → P o.1
kept P db (ok a, db') before after = after
kept P db (err e, db') before after = rw after before

save_user-Consistent :
    (user : User) (db : Db)
    → AccountsAreConsistent db
    → Consistent user
    → AccountsAreConsistent (save_user user db)
unfolding save_user
save_user-Consistent user db h c = All-put Consistent user db.users h c

module _ (hash_password : String → String) (db : Db) (h : AccountsAreConsistent db) where
  Stored-AccountsAreConsistent :
      (payload : SignupRequest) (existing : Option User) (db' : Db)
      → Stored hash_password payload db existing db'
      → AccountsAreConsistent db'
  Stored-AccountsAreConsistent payload none db' same = rw same (
      All-insert Consistent (new_user hash_password payload) db.users h
        (closed (new_user hash_password payload db.users.next_id) refl))
  Stored-AccountsAreConsistent payload (some u) db' (_, same) = rw same (
      All-put Consistent (as_resubmitted hash_password payload u) db.users h
        (closed (as_resubmitted hash_password payload u) refl))

  signup_consistent :
      (payload : SignupRequest) → AccountsAreConsistent (handle (signup hash_password payload) db).1
  signup_consistent payload =
      weaken (handle (signup hash_password payload) db) (signup-Applied hash_password payload db)
    where
      weaken :
          (o : Result SignupResponse × Db)
          → Ensures db (Applied hash_password payload db (by_email payload.email db)) o
          → AccountsAreConsistent o.1
      weaken (ok r, db') (_, _, _, stored) =
          Stored-AccountsAreConsistent payload (by_email payload.email db) db' stored
      weaken (err e, db') same = rw same h

  approve_consistent :
      (user_id : ℕ) (payload : UserApprove)
      → AccountsAreConsistent (handle (approve_user user_id payload) db).1
  approve_consistent user_id payload =
      weaken (handle (approve_user user_id payload) db) (approve_user-Approved user_id payload db)
    where
      weaken :
          (o : Result AdminUserOut × Db)
          → Ensures db (Approved user_id payload db) o
          → AccountsAreConsistent o.1
      weaken (ok r, db') (user, _, _, _, _, _, same, _) =
          rw same (save_user-Consistent (approved payload user) db h λ _. refl)
      weaken (err e, db') same = rw same h

  reject_consistent : (user_id : ℕ) → AccountsAreConsistent (handle (reject_user user_id) db).1
  reject_consistent user_id =
      weaken (handle (reject_user user_id) db) (reject_user-Rejected user_id db)
    where
      weaken :
          (o : Result AdminUserOut × Db)
          → Ensures db (Rejected user_id db) o
          → AccountsAreConsistent o.1
      weaken (ok r, db') (user, _, _, same) =
          rw same (save_user-Consistent (rejected user) db h (closed (rejected user) refl))
      weaken (err e, db') same = rw same h

  create_consistent :
      (payload : AdminUserCreate)
      → AccountsAreConsistent (handle (create_user hash_password payload) db).1
  unfolding create_user
  create_consistent payload =
      kept AccountsAreConsistent db (handle (create_user hash_password payload) db) h (
        Ends-handle _ (
          Ends-lift _ _ _ refl λ _ _. Ends-try_query _ _ _ refl λ _ _.
            Ends-try_query _ _ _ refl λ _ _. Ends-try_query _ _ _ refl λ _ _.
              Ends-try_query _ _ _ refl λ _ _. Ends-try_query _ _ _ refl λ _ _.
                Ends-query_bind _ _ _ (
                  Ends-flush _ _ _ (
                    Ends-commit _ _ (
                      Ends-query _ _ (
                        All-insert Consistent (created_user hash_password payload) db.users h
                          λ _. refl))))))

  password_consistent :
      (user_id : ℕ) (password : String)
      → AccountsAreConsistent (handle (set_password hash_password user_id password) db).1
  unfolding set_password
  password_consistent user_id password =
      kept AccountsAreConsistent db (handle (set_password hash_password user_id password) db) h (
        Ends-handle _ (
          Ends-try_query _ _ _ refl λ user loaded. Ends-lift _ _ _ refl λ _ _. Ends-flush _ _ _ (
            Ends-commit _ _ (
              Ends-pure _ _ (
                save_user-Consistent _ db h (
                  All-get Consistent user_id db.users user h
                    (load_user-ok user_id db user loaded)))))))

-- Sign-up, creation, approval, refusal and a new password keep it that only approved accounts are
-- open, whether they succeed or raise an error.
pub serve_account-AccountsAreConsistent :
    (hash_password : String → String) (request : AccountRequest) (db : Db)
    → AccountsAreConsistent db
    → AccountsAreConsistent (serve_account hash_password request db)
unfolding serve_account
serve_account-AccountsAreConsistent hash_password (apply_for payload) db h =
    signup_consistent hash_password db h payload
serve_account-AccountsAreConsistent hash_password (create payload) db h =
    create_consistent hash_password db h payload
serve_account-AccountsAreConsistent hash_password (approve user_id payload) db h =
    approve_consistent hash_password db h user_id payload
serve_account-AccountsAreConsistent hash_password (reject user_id) db h =
    reject_consistent hash_password db h user_id
serve_account-AccountsAreConsistent hash_password (reset_password user_id password) db h =
    password_consistent hash_password db h user_id password
