-- ===== src/Auth/Keys/Laws.antt =====
-- What issuing, using and revoking a key does.
use Prim.Native.String.{◌++◌}
use Prim.Native.String.append
use text.Mathlib.TextPositions.{eq_refl}
use skon_biztrip_web.Base.{
  ℕ, String, ◌≡◌, refl, ◌<◌, Bool, true, false, none, some, List, [], ◌∷◌, any, first, str_eq,
  arith, starts_with, join,
}
use skon_biztrip_web.Errors.{ok, err, auth_error}
use mathlib.Core.Path.{subst}
use skon_biztrip_web.Db.Table.{get, put, insert, find_row, put_row}
use skon_biztrip_web.Db.Rows.{User, ApiKey, user_entity, api_key_entity}
use skon_biztrip_web.Db.Session.{Db, handle, opened, ◌>>=◌}
use skon_biztrip_web.Db.Session.Ends.{
  Ensures, Ends-handle, Ends-pure, Ends-flush, Ends-try_flush, Ends-commit, Ends-lift,
  Ends-try_query, Ends-query_bind,
}
use skon_biztrip_web.Auth.Keys.{
  ApiKeyCreate, ApiKeyOut, ApiKeyCreated, validate_scopes, active_count, max_active_keys,
  assert_key_quota, raw_key, new_key, add_key, create_key, to_out, assert_unrevoked, by_hash,
  save_key, load_key, revoke_key, is_past, expiry, authenticate_key, key_state, assert_prefix,
  find_key, owner_of,
}

-- The key is the only new thing: it is the user's, under the prefix and a hash that no key had, for
-- scopes that are known, and the user had fewer than ten active ones.
abbrev pub Issued :
    (String → String) → String → ℕ → User → ApiKeyCreate → Db → ApiKeyCreated → Db → Type 0
Issued hash_key token now user payload db created db' =
    (scopes : List String) × (validate_scopes payload.scopes ≡ ok scopes)
    × (active_count user.id now db < max_active_keys)
    × (any (λ (k : ApiKey). str_eq k.key_hash (hash_key (raw_key token))) db.api_keys.rows ≡ false)
    × (created.key ≡ raw_key token)
    × (created.out
        ≡ to_out (new_key hash_key user payload scopes (raw_key token) now db.api_keys.next_id) now)
    × (db' ≡ record db {
      api_keys = insert (new_key hash_key user payload scopes (raw_key token) now) db.api_keys;
    })

quota-lt : (n : ℕ) → assert_key_quota n ≡ ok tt → n < max_active_keys
quota-lt n h = ground arith

add_key-ok :
    (key : ApiKey) (db db' : Db)
    → add_key key db ≡ ok db'
    → (any (λ (k : ApiKey). str_eq k.key_hash key.key_hash) db.api_keys.rows ≡ false)
      × (db' ≡ record db { api_keys = insert (λ id. key) db.api_keys })
unfolding add_key
add_key-ok key db db' h = ground arith

-- Issuing a key stores that key and nothing else, for a user with fewer than ten active keys; or it
-- raises an error and stores nothing.
pub create_key-Issued :
    (hash_key : String → String) (token : String) (now : ℕ) (user : User) (payload : ApiKeyCreate)
    (db : Db)
    → Ensures db
        (Issued hash_key token now user payload db)
        (handle (create_key hash_key token now user payload) db)
unfolding create_key insert
create_key-Issued hash_key token now user payload db = Ends-handle _ (
    Ends-lift _ _ _ refl λ scopes valid. Ends-query_bind _ _ _ (
      Ends-lift _ _ _ refl λ _ quota. Ends-query_bind _ _ _ (
        Ends-try_flush _ _ _ refl λ mid added. Ends-commit _ _ (
          Ends-pure _ _ (
            let (unused, same) = add_key-ok _ db mid added in
            (scopes, valid, quota-lt _ quota, unused, refl, refl, same))))))

starts_with-append : (p s : String) → starts_with p (p ++ s) ≡ true
starts_with-append String.[] s = refl
starts_with-append (String.◌∷◌ c p) s =
    rw (append.cons c p s) (ground (arith, starts_with-append p s))

raw_key-starts_with : (token : String) → starts_with "sk_live_" (raw_key token) ≡ true
unfolding raw_key join
raw_key-starts_with token = starts_with-append "sk_live_" (token ++ "")

-- A key that was just issued.
module _ (hash_key : String → String) (token : String) (user : User) (payload : ApiKeyCreate)
    (scopes : List String) (now : ℕ) (db : Db) where
  abbrev issued_key : ApiKey
  issued_key = new_key hash_key user payload scopes (raw_key token) now db.api_keys.next_id

  abbrev with_key : Db
  with_key = record db {
    api_keys = insert (new_key hash_key user payload scopes (raw_key token) now) db.api_keys;
  }

  found_again : find_key hash_key (raw_key token) with_key ≡ ok issued_key
  unfolding find_key insert
  found_again = ground (arith, eq_refl (hash_key (raw_key token)))

  -- It lets its holder in, before it expires.
  accepted :
      (later : ℕ) (owner : User)
      → get user.id db.users ≡ some owner
      → owner.is_active ≡ true
      → is_past (expiry payload.expires_in_days now) later ≡ false
      → (authenticate_key hash_key later (raw_key token) (opened with_key)).0 ≡ ok (owner, scopes)
  unfolding authenticate_key ◌>>=◌ assert_prefix owner_of key_state
  accepted later owner found active fresh = ground (arith, raw_key-starts_with token, found_again)

-- The key that the response shows, once, lets its holder in as the user and for the scopes that the
-- response names, until it expires and while the account is active.
pub create_key-authenticate_key :
    (hash_key : String → String) (token : String) (now : ℕ) (user : User) (payload : ApiKeyCreate)
    (db : Db) (created : ApiKeyCreated) (db' : Db) (later : ℕ) (owner : User)
    → handle (create_key hash_key token now user payload) db ≡ (ok created, db')
    → get user.id db.users ≡ some owner
    → owner.is_active ≡ true
    → is_past (expiry payload.expires_in_days now) later ≡ false
    → (authenticate_key hash_key later created.key (opened db')).0 ≡ ok (owner, created.out.scopes)
create_key-authenticate_key hash_key token now user payload db created db' later owner h found
      active fresh =
    let issued : Ensures db (Issued hash_key token now user payload db) (ok created, db') =
      subst (Ensures db (Issued hash_key token now user payload db)) h
        (create_key-Issued hash_key token now user payload db) in
    let (scopes, valid, quota, unused, key, out, same) = issued in
    rw key (
      rw out (
        rw same
          (accepted hash_key token user payload scopes now db later owner found active fresh)))

-- The row that a revocation changes is the one that the hash finds.
first-put_row :
    (p : ApiKey → Bool) (k k' : ApiKey) (rows : List ApiKey)
    → find_row k.id rows ≡ some k
    → first p rows ≡ some k
    → k'.id ≡ k.id
    → p k' ≡ true
    → first p (put_row k' rows) ≡ some k'
first-put_row p k k' [] at_id at_hash same keep = absurd (ground arith)
first-put_row p k k' (x ∷ rows) at_id at_hash same keep = ground (arith, first-put_row p k k' rows)

-- The key under that number is the user's and was not revoked; now it is, from this moment on, and
-- nothing else changes.
abbrev pub Revoked : ℕ → User → ℕ → Db → ApiKeyOut → Db → Type 0
Revoked now user key_id db out db' =
    (key : ApiKey) × (get key_id db.api_keys ≡ some key)
    × (key.user_id ≡ user.id)
    × (key.revoked_at ≡ none)
    × (db' ≡ save_key (record key { revoked_at = some now }) db)

load_key-ok :
    (user : User) (key_id : ℕ) (db : Db) (key : ApiKey)
    → load_key user key_id db ≡ ok key
    → (get key_id db.api_keys ≡ some key) × (key.user_id ≡ user.id)
unfolding load_key
load_key-ok user key_id db key h = ground arith

assert_unrevoked-none : (key : ApiKey) → assert_unrevoked key ≡ ok tt → key.revoked_at ≡ none
assert_unrevoked-none key h = ground arith

-- Only its owner revokes a key, and only once; nothing else changes. Or an error is raised and nothing
-- changes.
pub revoke_key-Revoked :
    (now : ℕ) (user : User) (key_id : ℕ) (db : Db)
    → Ensures db (Revoked now user key_id db) (handle (revoke_key now user key_id) db)
unfolding revoke_key
revoke_key-Revoked now user key_id db = Ends-handle _ (
    Ends-try_query _ _ _ refl λ key loaded. Ends-lift _ _ _ refl λ _ unrevoked. Ends-flush _ _ _ (
      Ends-commit _ _ (
        Ends-pure _ _ (
          let (found, own) = load_key-ok user key_id db key loaded in
          (key, found, own, assert_unrevoked-none key unrevoked, refl)))))

revoked_again :
    (hash_key : String → String) (raw : String) (now later : ℕ) (db : Db) (key : ApiKey)
    → get key.id db.api_keys ≡ some key
    → by_hash hash_key raw db ≡ some key
    → starts_with "sk_live_" raw ≡ true
    → (authenticate_key hash_key later raw
        (opened (save_key (record key { revoked_at = some now }) db))).0
      ≡ err (auth_error "API_KEY_REVOKED" none)
unfolding authenticate_key ◌>>=◌ assert_prefix find_key save_key key_state get put
revoked_again hash_key raw now later db key found hashed prefixed = ground (
  arith,
  first-put_row (λ (k : ApiKey). str_eq k.key_hash (hash_key raw)) key
      (record key { revoked_at = some now }) db.api_keys.rows found hashed refl
      (first_holds (λ (k : ApiKey). str_eq k.key_hash (hash_key raw)) key db.api_keys.rows hashed),
)
  where
    first_holds :
        (p : ApiKey → Bool) (k : ApiKey) (rows : List ApiKey) → first p rows ≡ some k → p k ≡ true
    first_holds p k [] h = absurd (ground arith)
    first_holds p k (x ∷ rows) h = ground (arith, first_holds p k rows)

-- A key that its owner has revoked lets nobody in any more, at whatever time.
pub revoke_key-authenticate_key :
    (hash_key : String → String) (raw : String) (now later : ℕ) (user : User) (db : Db)
    (key : ApiKey) (out : ApiKeyOut) (db' : Db)
    → get key.id db.api_keys ≡ some key
    → by_hash hash_key raw db ≡ some key
    → starts_with "sk_live_" raw ≡ true
    → handle (revoke_key now user key.id) db ≡ (ok out, db')
    → (authenticate_key hash_key later raw (opened db')).0 ≡ err (auth_error "API_KEY_REVOKED" none)
revoke_key-authenticate_key hash_key raw now later user db key out db' found hashed prefixed h =
    let done : Ensures db (Revoked now user key.id db) (ok out, db') =
      subst (Ensures db (Revoked now user key.id db)) h (revoke_key-Revoked now user key.id db) in
    let (key', found', own, unrevoked, same) = done in
    rw same (
      rw (← same_key found found')
        (revoked_again hash_key raw now later db key found hashed prefixed))
  where
    same_key :
        {key key' : ApiKey}
        → get key.id db.api_keys ≡ some key
        → get key.id db.api_keys ≡ some key'
        → key ≡ key'
    same_key p q = ground arith
