-- ===== src/Auth/Keys.antt =====
-- API keys: their state, issue, use and revocation (backend/app/services/api_keys.py). SHA-256 and the
-- random part of a key are parameters. The time is an argument: each function of the source reads the
-- clock for itself.
pub mod Laws
pub mod Bounds
use skon_biztrip_web.Base.{
  ℕ, ◌+◌, ◌*◌, String, Bool, true, false, not, ◌&&◌, ◌||◌, ◌==◌, Option, none, some, List, [], ◌∷◌,
  any, first, select, map, length, leb, ltb, if◌then◌else◌, str_eq, join, starts_with, take_text,
  sort_by,
}
use skon_biztrip_web.Enums.{all_scopes, scope_value, ApiKeyScope}
use skon_biztrip_web.Errors.{
  Result, ok, err, validation_error, auth_error, conflict_error, not_found_error, unexpected,
}
use skon_biztrip_web.Db.Table.{get, put, insert}
use skon_biztrip_web.Db.Rows.{User, ApiKey, user_entity, api_key_entity}
use skon_biztrip_web.Db.Session.{
  Db, Service, pure, lift, query, try_query, flush, try_flush, commit, ◌>>=◌, ◌>>◌, handle,
}

pub record ApiKeyCreate : Type 0 where
  pub name : String
  pub scopes : List String
  pub expires_in_days : Option ℕ

-- The values of `key_state`.
pub data KeyState : Type 0 where
  active revoked expired : KeyState

pub record ApiKeyOut : Type 0 where
  pub id : ℕ
  pub name : String
  pub key_prefix : String
  pub scopes : List String
  pub state : KeyState
  pub last_used_at : Option ℕ
  pub expires_at : Option ℕ
  pub revoked_at : Option ℕ

pub record ApiKeyCreated : Type 0 where
  pub out : ApiKeyOut
  pub key : String

-- `MAX_ACTIVE_KEYS`
abbrev pub max_active_keys : ℕ
max_active_keys = 10

-- `expires_at is not None and expires_at <= now`
abbrev pub is_past : Option ℕ → ℕ → Bool
is_past none now = false
is_past (some moment) now = leb moment now

abbrev pub is_set : Option ℕ → Bool
is_set none = false
is_set (some moment) = true

unfoldable pub key_state : Option ℕ → Option ℕ → ℕ → KeyState
key_state revoked_at expires_at now =
    if is_set revoked_at
    then KeyState.revoked
    else if is_past expires_at now
    then KeyState.expired
    else KeyState.active

-- `_to_out`
abbrev pub to_out : ApiKey → ℕ → ApiKeyOut
to_out key now = record {
  id = key.id;
  name = key.name;
  key_prefix = key.key_prefix;
  scopes = key.scopes;
  state = key_state key.revoked_at key.expires_at now;
  last_used_at = key.last_used_at;
  expires_at = key.expires_at;
  revoked_at = key.revoked_at;
}

-- `str(scope) in known`
abbrev pub is_known : String → Bool
is_known scope = any (λ (s : ApiKeyScope). str_eq (scope_value s) scope) all_scopes

-- The requested scopes in the order of the enumeration, each once.
abbrev pub in_order : List String → List String
in_order requested = select (λ s. any (str_eq s) requested) (map scope_value all_scopes)

-- `_validate_scopes`
unfoldable pub validate_scopes : List String → Result (List String)
validate_scopes [] = err (validation_error "SCOPES_REQUIRED" (some "scopes"))
validate_scopes (s ∷ scopes) =
    if any (λ t. not (is_known t)) (s ∷ scopes)
    then err (validation_error "INVALID_SCOPE" (some "scopes"))
    else ok (in_order (s ∷ scopes))

-- The condition of the count in `create_key`.
abbrev pub is_live : ℕ → ℕ → ApiKey → Bool
is_live user_id now k =
    k.user_id == user_id && not (is_set k.revoked_at) && not (is_past k.expires_at now)

unfoldable pub active_count : ℕ → ℕ → Db → ℕ
active_count user_id now db = length (select (is_live user_id now) db.api_keys.rows)

-- A day of `timedelta`, in microseconds.
abbrev pub day : ℕ
day = 86400000000

-- `now + timedelta(days=…)`, where 0 days are none to Python's `if`.
abbrev pub expiry : Option ℕ → ℕ → Option ℕ
expiry none now = none
expiry (some days) now = if days == 0 then none else some (now + days * day)

-- `TOO_MANY_KEYS`
abbrev pub assert_key_quota : ℕ → Result (Unit {0})
assert_key_quota live =
    if leb max_active_keys live then err (conflict_error "TOO_MANY_KEYS" none) else ok tt

abbrev pub invalid_key : {A : Type 0} → Result A
invalid_key = err (auth_error "INVALID_API_KEY" none)

-- What `generate_key` draws: the prefix before the random part.
unfoldable pub raw_key : String → String
unfolding join
raw_key token = join ("sk_live_" ∷ token ∷ [])

-- `state == "REVOKED"`, `state == "EXPIRED"`
abbrev pub assert_active_state : KeyState → Result (Unit {0})
assert_active_state KeyState.active = ok tt
assert_active_state KeyState.revoked = err (auth_error "API_KEY_REVOKED" none)
assert_active_state KeyState.expired = err (auth_error "API_KEY_EXPIRED" none)

-- `user is None or not user.is_active`
abbrev pub active_owner : Option User → Result User
active_owner none = invalid_key
active_owner (some user) = if user.is_active then ok user else invalid_key

unfoldable pub owner_of : ApiKey → Db → Result User
owner_of key db = active_owner (get key.user_id db.users)

-- The key, changed and flushed.
unfoldable pub save_key : ApiKey → Db → Db
save_key key db = record db { api_keys = put key db.api_keys }

abbrev pub found_key : Option ApiKey → Result ApiKey
found_key none = invalid_key
found_key (some key) = ok key

unfoldable pub assert_prefix : String → Result (Unit {0})
assert_prefix raw = if starts_with "sk_live_" raw then ok tt else invalid_key

-- INSERT, which the unique `key_hash` may refuse.
unfoldable pub add_key : ApiKey → Db → Result Db
add_key key db =
    if any (λ (k : ApiKey). str_eq k.key_hash key.key_hash) db.api_keys.rows
    then err (unexpected "IntegrityError")
    else ok (record db { api_keys = insert (λ id. key) db.api_keys })

module _ (hash_key : String → String) where
  abbrev pub by_hash : String → Db → Option ApiKey
  by_hash raw db = first (λ (k : ApiKey). str_eq k.key_hash (hash_key raw)) db.api_keys.rows

  unfoldable pub find_key : String → Db → Result ApiKey
  find_key raw db = found_key (by_hash raw db)

  unfoldable pub authenticate_key : ℕ → String → Service (User × List String)
  authenticate_key now raw = do
    lift (assert_prefix raw)
    key ← try_query (find_key raw)
    lift (assert_active_state (key_state key.revoked_at key.expires_at now))
    user ← try_query (owner_of key)
    flush (save_key (record key { last_used_at = some now }))
    pure (user, key.scopes)

  abbrev pub new_key : User → ApiKeyCreate → List String → String → ℕ → ℕ → ApiKey
  new_key user payload scopes raw now id = record {
    id = id;
    user_id = user.id;
    name = payload.name;
    key_prefix = take_text 16 raw;
    key_hash = hash_key raw;
    scopes = scopes;
    last_used_at = none;
    expires_at = expiry payload.expires_in_days now;
    revoked_at = none;
  }

  -- `token` is the random part, `secrets.token_hex(16)`.
  unfoldable pub create_key : String → ℕ → User → ApiKeyCreate → Service ApiKeyCreated
  create_key token now user payload = do
    scopes ← lift (validate_scopes payload.scopes)
    live ← query (active_count user.id now)
    lift (assert_key_quota live)
    let raw = raw_key token
    key ← query (λ db. new_key user payload scopes raw now db.api_keys.next_id)
    try_flush (add_key key)
    commit
    pure (record { out = to_out key now; key = raw })

-- The creation rises with the key, so the newest comes first.
unfoldable pub list_keys : ℕ → User → Service (List ApiKeyOut)
list_keys now user = query λ db.
    map (λ (k : ApiKey). to_out k now)
      (sort_by (λ (a b : ApiKey). leb b.id a.id)
        (select (λ (k : ApiKey). k.user_id == user.id) db.api_keys.rows))

-- `key is None or key.user_id != user.id`
abbrev pub own_key : User → Option ApiKey → Result ApiKey
own_key user none = err (not_found_error "API_KEY_NOT_FOUND" none)
own_key user (some key) =
    if key.user_id == user.id then ok key else err (not_found_error "API_KEY_NOT_FOUND" none)

unfoldable pub load_key : User → ℕ → Db → Result ApiKey
load_key user key_id db = own_key user (get key_id db.api_keys)

abbrev pub assert_unrevoked : ApiKey → Result (Unit {0})
assert_unrevoked key =
    if is_set key.revoked_at then err (conflict_error "API_KEY_ALREADY_REVOKED" none) else ok tt

-- The second reading of the clock is for a state that is revoked at any time.
unfoldable pub revoke_key : ℕ → User → ℕ → Service ApiKeyOut
revoke_key now user key_id = do
  key ← try_query (load_key user key_id)
  lift (assert_unrevoked key)
  let saved = record key { revoked_at = some now }
  flush (save_key saved)
  commit
  pure (to_out saved now)

-- The endpoints of backend/app/routers/api_keys.py that write.
pub data KeyRequest : Type 0 where
  issue : String → ApiKeyCreate → KeyRequest
  revoke : ℕ → KeyRequest

-- The stored database after such a request of the user.
unfoldable pub serve_key : (String → String) → KeyRequest → ℕ → User → Db → Db
serve_key hash_key (issue token payload) now user db =
    (handle (create_key hash_key token now user payload) db).1
serve_key hash_key (revoke key_id) now user db = (handle (revoke_key now user key_id) db).1
