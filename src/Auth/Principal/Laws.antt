-- ===== src/Auth/Principal/Laws.antt =====
-- Whom `get_principal` lets in, and for what.
use skon_biztrip_web.Base.{
  ℕ, String, ◌≡◌, refl, true, false, Option, none, some, List, strip, arith, sym, ap, ◌∙◌, upper,
}
use skon_biztrip_web.Base.Occurs.{Occurs}
use skon_biztrip_web.Enums.{ApiKeyScope}
use mathlib.Core.Path.{subst}
use skon_biztrip_web.Errors.{Result, ok, err}
use skon_biztrip_web.Db.Table.{get}
use skon_biztrip_web.Db.Rows.{User, ApiKey, user_entity, api_key_entity}
use skon_biztrip_web.Db.Session.{Db, Session, opened}
use skon_biztrip_web.Db.Session.Results.{
  >>=-ok, lift-ok, try_query-ok, flush-pure, commit-pure, pure_is, try_query_is,
}
use skon_biztrip_web.Auth.Scopes.{required_scope_for}
use skon_biztrip_web.Auth.Scopes.Table.{scope_requirements}
use skon_biztrip_web.Auth.Keys.{
  authenticate_key, by_hash, key_state, is_past, find_key, owner_of, assert_active_state,
}
use skon_biztrip_web.Auth.Principal.Granted.{
  Permits, scope_granted-Permits, required_scope_for-Occurs,
}
use skon_biztrip_web.Auth.Principal.{
  Request, Scopes, AuthMethod, Principal, Claims, given_key, bearer_token, subject_of,
  scope_granted, enforce_scope, decode_access_token, authenticate_jwt, key_principal, jwt_principal,
  credentials, get_principal, valid_user,
}

module _ (hash_key : String → String) (jwt_decode : String → Claims) where
  -- By what a request is identified: a key that is stored, neither revoked nor expired, for the scopes
  -- that it was issued for; or, where there is no key, a token, for any scope.
  pub data Identified (now : ℕ) (request : Request) (db : Db) : Principal → Type 0 where
    by_key :
        (raw : String) (key : ApiKey) (user : User)
        → given_key request.api_key ≡ some raw
        → by_hash hash_key (strip raw) db ≡ some key
        → key.revoked_at ≡ none
        → is_past key.expires_at now ≡ false
        → get key.user_id db.users ≡ some user
        → user.is_active ≡ true
        → Identified now request db (record {
          user = user;
          scopes = Scopes.limited key.scopes;
          auth_method = AuthMethod.api_key;
        })
    by_token :
        (token : String) (user_id : ℕ) (user : User)
        → given_key request.api_key ≡ none
        → bearer_token request.authorization ≡ ok token
        → jwt_decode token ≡ Claims.subject user_id
        → get user_id db.users ≡ some user
        → user.is_active ≡ true
        → Identified now request db
            (record { user = user; scopes = Scopes.unrestricted; auth_method = AuthMethod.jwt })

  subject_of-subject : (c : Claims) (n : ℕ) → subject_of c ≡ ok n → c ≡ Claims.subject n
  subject_of-subject Claims.expired_signature n h = absurd (ground arith)
  subject_of-subject Claims.unreadable n h = absurd (ground arith)
  subject_of-subject (Claims.subject k) n h = ground arith

  valid_user-ok :
      (found : Option User) (user : User)
      → valid_user found ≡ ok user
      → (found ≡ some user) × (user.is_active ≡ true)
  valid_user-ok found user h = ground arith

  key_state-active :
      (revoked_at expires_at : Option ℕ) (now : ℕ)
      → assert_active_state (key_state revoked_at expires_at now) ≡ ok tt
      → (revoked_at ≡ none) × (is_past expires_at now ≡ false)
  unfolding key_state
  key_state-active revoked_at expires_at now h = ground arith

  owner_of-ok :
      (key : ApiKey) (db : Db) (user : User)
      → owner_of key db ≡ ok user
      → (get key.user_id db.users ≡ some user) × (user.is_active ≡ true)
  unfolding owner_of
  owner_of-ok key db user h = ground arith

  find_key-ok :
      (raw : String) (db : Db) (key : ApiKey)
      → find_key hash_key raw db ≡ ok key
      → by_hash hash_key raw db ≡ some key
  unfolding find_key
  find_key-ok raw db key h = ground arith

  -- The key by which the call succeeded.
  authenticated :
      (now : ℕ) (raw : String) (db : Db) (user : User) (scopes : List String)
      → (authenticate_key hash_key now raw (opened db)).0 ≡ ok (user, scopes)
      → (key : ApiKey) × (by_hash hash_key raw db ≡ some key)
        × (key.revoked_at ≡ none)
        × (is_past key.expires_at now ≡ false)
        × (get key.user_id db.users ≡ some user)
        × (user.is_active ≡ true)
        × (scopes ≡ key.scopes)
  unfolding authenticate_key
  authenticated now raw db user scopes h =
      let (_, _, h1) = lift-ok _ _ _ _ h in
      let (key, found, h2) = try_query-ok _ _ _ _ h1 in
      let (_, state, h3) = lift-ok _ _ _ _ h2 in
      let (owner, own, h4) = try_query-ok _ _ _ _ h3 in
      let (unrevoked, fresh) = key_state-active key.revoked_at key.expires_at now state in
      let (at_user, active) = owner_of-ok key db owner own in
      let same = flush-pure _ _ _ _ h4 in
      let same_user = ap (λ (p : User × List String). p.0) same in
      (
        key,
        find_key-ok raw db key found,
        unrevoked,
        fresh,
        at_user ∙ ap some same_user,
        sym (ap (λ (u : User). u.is_active) same_user) ∙ active,
        sym (ap (λ (p : User × List String). p.1) same),
      )

  key_principal-ok :
      (now : ℕ) (raw : String) (db : Db) (p : Principal)
      → (key_principal hash_key now raw (opened db)).0 ≡ ok p
      → (user : User) × (scopes : List String) × ((authenticate_key hash_key now
            (strip raw)
            (opened db)).0
          ≡ ok (user, scopes))
        × (p ≡ record {
          user = user;
          scopes = Scopes.limited scopes;
          auth_method = AuthMethod.api_key;
        })
  unfolding key_principal
  key_principal-ok now raw db p h =
      let (found, identified, h1) = >>=-ok _ _ _ _ h in
      (found.0, found.1, identified, sym (commit-pure _ _ _ h1))

  key_principal-Identified :
      (now : ℕ) (request : Request) (db : Db) (raw : String) (p : Principal)
      → given_key request.api_key ≡ some raw
      → (key_principal hash_key now raw (opened db)).0 ≡ ok p
      → Identified now request db p
  key_principal-Identified now request db raw p given h =
      let (user, scopes, identified, same) = key_principal-ok now raw db p h in
      let (key, found, unrevoked, fresh, owner, active, its) =
        authenticated now (strip raw) db user scopes identified in
      let same' =
        same
        ∙ ap
            (λ (l : List String). record {
              user = user;
              scopes = Scopes.limited l;
              auth_method = AuthMethod.api_key;
            })
            its in
      subst (Identified now request db) (sym same')
        (by_key raw key user given found unrevoked fresh owner active)

  jwt_principal-Identified :
      (now : ℕ) (request : Request) (db : Db) (p : Principal)
      → given_key request.api_key ≡ none
      → (jwt_principal jwt_decode request (opened db)).0 ≡ ok p
      → Identified now request db p
  unfolding jwt_principal authenticate_jwt decode_access_token
  jwt_principal-Identified now request db p given h =
      let (user, identified, h1) = >>=-ok _ _ _ _ h in
      let (token, bearer, h2) = lift-ok _ _ _ _ identified in
      let (user_id, subject, h3) = lift-ok _ _ _ _ h2 in
      let (found, active) = valid_user-ok (get user_id db.users) user (try_query_is _ _ _ h3) in
      subst (Identified now request db) (pure_is _ _ _ h1) (
        by_token token user_id user given bearer
          (subject_of-subject (jwt_decode token) user_id subject) found active)

  credentials_of_key :
      (now : ℕ) (request : Request) (raw : String) (db : Db)
      → given_key request.api_key ≡ some raw
      → credentials hash_key jwt_decode now request (opened db)
        ≡ key_principal hash_key now raw (opened db)
  unfolding credentials
  credentials_of_key now request raw db e = cc

  credentials_of_token :
      (now : ℕ) (request : Request) (db : Db)
      → given_key request.api_key ≡ none
      → credentials hash_key jwt_decode now request (opened db)
        ≡ jwt_principal jwt_decode request (opened db)
  unfolding credentials
  credentials_of_token now request db e = cc

  credentials-Identified :
      (now : ℕ) (request : Request) (db : Db) (p : Principal) (given : Option String)
      → given_key request.api_key ≡ given
      → (credentials hash_key jwt_decode now request (opened db)).0 ≡ ok p
      → Identified now request db p
  credentials-Identified now request db p (some raw) e h =
      key_principal-Identified now request db raw p e (
        sym (ap (λ (o : Result Principal × Session). o.0) (credentials_of_key now request raw db e))
        ∙ h)
  credentials-Identified now request db p none e h = jwt_principal-Identified now request db p e (
      sym (ap (λ (o : Result Principal × Session). o.0) (credentials_of_token now request db e))
      ∙ h)

  enforce_scope-ok :
      (request : Request) (scopes : Scopes)
      → enforce_scope request scopes ≡ ok tt
      → (required : Option ApiKeyScope) × Occurs
          (upper request.method, request.path, required)
          scope_requirements
        × Permits scopes required
  unfolding enforce_scope
  enforce_scope-ok request scopes h =
      let (required, found, permitted) =
        granted (required_scope_for request.method request.path) h in
      (required, required_scope_for-Occurs request.method request.path required found, permitted)
    where
      granted :
          (r : Result (Option ApiKeyScope))
          → elim r [ err e ↦ err e | ok required ↦ scope_granted scopes required ] ≡ ok tt
          → (required : Option ApiKeyScope) × (r ≡ ok required) × Permits scopes required
      granted (ok required) h = (required, refl, scope_granted-Permits scopes required h)
      granted (err e) h = absurd (ground arith)

  -- Whom `get_principal` lets in is identified by a stored, unrevoked and unexpired key of an active user,
  -- or, where no key is given, by a valid token of one; and the table of scopes has a row for the method and
  -- the route, and where that row names a scope, it is one of those that the key was issued for.
  pub get_principal-Identified :
      (now : ℕ) (request : Request) (db : Db) (p : Principal)
      → (get_principal hash_key jwt_decode now request (opened db)).0 ≡ ok p
      → Identified now request db p
        × ((required : Option ApiKeyScope) × Occurs
              (upper request.method, request.path, required)
              scope_requirements
            × Permits p.scopes required)
  unfolding get_principal
  get_principal-Identified now request db p h =
      let (q, identified, h1) = >>=-ok _ _ _ _ h in
      let (_, enforced, h2) = lift-ok _ _ _ _ h1 in
      let same = pure_is _ _ _ h2 in
      (
        subst (Identified now request db) same
            (credentials-Identified now request db q (given_key request.api_key) refl identified),
        enforce_scope-ok request p.scopes
            (sym (ap (λ (x : Principal). enforce_scope request x.scopes) same) ∙ enforced),
      )
