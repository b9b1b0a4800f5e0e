-- ===== src/Auth/Login/Laws.antt =====
-- Whom the log-in lets in.
use skon_biztrip_web.Base.{
  ℕ, String, ◌+◌, ◌*◌, ◌/◌, ◌<◌, ◌≡◌, refl, Bool, true, false, Option, none, some, decimal, arith,
  sym, ap, ◌∙◌,
}
use mathlib.Core.Path.{subst}
use skon_biztrip_web.Enums.{UserStatus}
use skon_biztrip_web.Errors.{Result, ok}
use skon_biztrip_web.Db.Table.{get}
use skon_biztrip_web.Db.Rows.{User, user_entity, department_entity}
use skon_biztrip_web.Db.Session.{Db, handle, opened, ◌>>=◌}
use skon_biztrip_web.Db.Session.Ends.{
  Ensures, Ends-handle, Ends-pure, Ends-lift, Ends-query_bind, Ends-nest, Ends-pure_bind,
}
use skon_biztrip_web.Users.Signup.{by_email}
use skon_biztrip_web.Auth.Login.{
  LoginRequest, LoginResponse, required_field, to_user_out, hour, second, invalid_credentials,
  stored_hash, known_user, admitted_user, create_access_token, login,
}
use skon_biztrip_web.Auth.Principal.{
  Request, Claims, bearer_token, authenticate_jwt, decode_access_token,
}

known_user-ok :
    (found : Option User) (password_ok : Bool) (user : User)
    → known_user found password_ok ≡ ok user
    → (found ≡ some user) × (password_ok ≡ true)
known_user-ok none password_ok user h = absurd (ground arith)
known_user-ok (some u) false user h = absurd (ground arith)
known_user-ok (some u) true user h = ground arith

admitted_user-ok :
    (user : User) (status : UserStatus) (is_active : Bool)
    → admitted_user user status is_active ≡ ok tt
    → (status ≡ UserStatus.active) × (is_active ≡ true)
admitted_user-ok user UserStatus.pending is_active h = absurd (ground arith)
admitted_user-ok user UserStatus.rejected is_active h = absurd (ground arith)
admitted_user-ok user UserStatus.active false h = absurd (ground arith)
admitted_user-ok user UserStatus.active true h = (refl, refl)

required_field-some :
    (field : Option String) (text : String) → required_field field ≡ ok text → field ≡ some text
required_field-some none text h = absurd (ground arith)
required_field-some (some t) text h = ground arith

module _ (verify_password : String → String → Bool) (dummy_hash : String)
    (jwt_encode : String → ℕ → String) (expire_hours : ℕ) (now : ℕ) (payload : LoginRequest)
    (db : Db) where
  -- The account of that e-mail, approved, not suspended and with that password, gets a token of its own;
  -- the database stays.
  abbrev pub LoggedIn : LoginResponse → Db → Type 0
  LoggedIn response db' =
      (user : User) × (by_email payload.email db ≡ some user)
      × (verify_password payload.password user.password_hash ≡ true)
      × (user.status ≡ UserStatus.active)
      × (user.is_active ≡ true)
      × (some response.user.employee_no ≡ user.employee_no)
      × (some response.user.position_code ≡ user.position_code)
      × (response.user.id ≡ user.id)
      × (response.access_token ≡ create_access_token jwt_encode expire_hours now user.id)
      × (db' ≡ db)

  -- Only the owner of an approved account that is not suspended logs in, with the password of that
  -- account, and gets a token of that account; the database stays as it was, also where an error is raised.
  pub login-LoggedIn :
      Ensures db LoggedIn
        (handle (login verify_password dummy_hash jwt_encode expire_hours now payload) db)
  unfolding login to_user_out
  login-LoggedIn = Ends-handle _ (
      Ends-query_bind _ _ _ (
        Ends-lift _ _ _ refl λ user known. Ends-lift _ _ _ refl λ _ admitted. Ends-nest _ _ _ _ (
          Ends-query_bind _ _ _ (
            Ends-nest _ _ _ _ (
              Ends-lift _ _ _ refl λ employee_no employee. Ends-nest _ _ _ _ (
                Ends-lift _ _ _ refl λ position_code position. Ends-pure_bind _ _ _ (
                  Ends-pure _ _ (
                    let (found, same) = known_user-ok (by_email payload.email db) _ user known in
                    let (status, unsuspended) =
                      admitted_user-ok user user.status user.is_active admitted in
                    (
                      user,
                      found,
                      sym (
                            ap
                              (λ (o : Option User).
                                verify_password payload.password (stored_hash dummy_hash o))
                              found)
                          ∙ same,
                      status,
                      unsuspended,
                      sym (required_field-some user.employee_no employee_no employee),
                      sym (required_field-some user.position_code position_code position),
                      refl,
                      refl,
                      refl,
                    )))))))))

wrong_password :
    (verify_password : String → String → Bool) (dummy_hash : String)
    (jwt_encode : String → ℕ → String) (expire_hours : ℕ) (now : ℕ) (payload : LoginRequest)
    (db : Db) (user : User)
    → by_email payload.email db ≡ some user
    → verify_password payload.password user.password_hash ≡ false
    → handle (login verify_password dummy_hash jwt_encode expire_hours now payload) db
      ≡ (invalid_credentials, db)
unfolding login handle ◌>>=◌
wrong_password verify_password dummy_hash jwt_encode expire_hours now payload db user found wrong =
    ground arith

no_account :
    (verify_password : String → String → Bool) (dummy_hash : String)
    (jwt_encode : String → ℕ → String) (expire_hours : ℕ) (now : ℕ) (payload : LoginRequest)
    (db : Db)
    → by_email payload.email db ≡ none
    → handle (login verify_password dummy_hash jwt_encode expire_hours now payload) db
      ≡ (invalid_credentials, db)
unfolding login handle ◌>>=◌
no_account verify_password dummy_hash jwt_encode expire_hours now payload db found = ground arith

-- Without the password of an account, a log-in is answered as where there is no such account: whatever
-- the state of the account, nothing tells that there is one.
pub login-invalid_credentials :
    (verify_password : String → String → Bool) (dummy_hash : String)
    (jwt_encode : String → ℕ → String) (expire_hours : ℕ) (now : ℕ) (payload : LoginRequest)
    (db other : Db) (user : User)
    → by_email payload.email db ≡ some user
    → verify_password payload.password user.password_hash ≡ false
    → by_email payload.email other ≡ none
    → (handle (login verify_password dummy_hash jwt_encode expire_hours now payload) db).0
      ≡ (handle (login verify_password dummy_hash jwt_encode expire_hours now payload) other).0
login-invalid_credentials verify_password dummy_hash jwt_encode expire_hours now payload db other
      user found wrong absent =
    let outcome = λ (o : Result LoginResponse × Db). o.0 in
    ap outcome (
      wrong_password verify_password dummy_hash jwt_encode expire_hours now payload db user found
        wrong)
    ∙ sym (
        ap outcome
          (no_account verify_password dummy_hash jwt_encode expire_hours now payload other absent))

module _ (jwt_decode : String → Claims) (request : Request) (db : Db) (user : User) where
  token_accepted :
      (token : String)
      → bearer_token request.authorization ≡ ok token
      → jwt_decode token ≡ Claims.subject user.id
      → get user.id db.users ≡ some user
      → user.is_active ≡ true
      → (authenticate_jwt jwt_decode request (opened db)).0 ≡ ok user
  unfolding authenticate_jwt ◌>>=◌ decode_access_token
  token_accepted token bearer decoded found unsuspended = ground arith

-- The token that a log-in returns identifies the account that logged in, before the last whole second of
-- the expiry, where PyJWT, which keeps whole seconds of an expiry, reads the subject of what it has
-- written before that second, and the account is the one under its key.
pub login-authenticate_jwt :
    (verify_password : String → String → Bool) (dummy_hash : String)
    (jwt_encode : String → ℕ → String) (jwt_decode : ℕ → String → Claims) (expire_hours : ℕ)
    (now : ℕ) (payload : LoginRequest) (db : Db) (response : LoginResponse) (db' : Db) (later : ℕ)
    (request : Request)
    → ((user : User) (expiry : ℕ)
        → by_email payload.email db ≡ some user
        → later < expiry / second * second
        → jwt_decode later (jwt_encode (decimal user.id) expiry) ≡ Claims.subject user.id)
    → ((user : User) → by_email payload.email db ≡ some user → get user.id db.users ≡ some user)
    → handle (login verify_password dummy_hash jwt_encode expire_hours now payload) db
      ≡ (ok response, db')
    → later < (now + expire_hours * hour) / second * second
    → bearer_token request.authorization ≡ ok response.access_token
    → (user : User) × (by_email payload.email db ≡ some user)
      × (response.user.id ≡ user.id)
      × ((authenticate_jwt (jwt_decode later) request (opened db')).0 ≡ ok user)
unfolding create_access_token
login-authenticate_jwt verify_password dummy_hash jwt_encode jwt_decode expire_hours now payload db
      response db' later request reads keyed h fresh bearer =
    let Q = LoggedIn verify_password dummy_hash jwt_encode expire_hours now payload db in
    let logged_in : Ensures db Q (ok response, db') =
      subst (Ensures db Q) h
        (login-LoggedIn verify_password dummy_hash jwt_encode expire_hours now payload db) in
    let (user, found, _, _, unsuspended, _, _, same_id, token, same) = logged_in in
    (
      user,
      found,
      same_id,
      rw same (
          token_accepted (jwt_decode later) request db user response.access_token bearer
            (ap (jwt_decode later) token ∙ reads user _ found fresh) (keyed user found)
            unsuspended),
    )
