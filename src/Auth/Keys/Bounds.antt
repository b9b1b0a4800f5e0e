-- ===== src/Auth/Keys/Bounds.antt =====
-- No user has more than ten active keys.
use skon_biztrip_web.Base.{
  ℕ, String, ◌≡◌, refl, ◌≤◌, ◌<◌, ◌+◌, Bool, true, false, ◌==◌, Option, none, some, List, [], ◌∷◌,
  select, length, arith, if◌then◌else◌,
}
use skon_biztrip_web.Errors.{Result, ok, err}
use skon_biztrip_web.Db.Table.{Table, put, insert, put_row}
use skon_biztrip_web.Db.Rows.{User, ApiKey, api_key_entity}
use skon_biztrip_web.Db.Session.{Db}
use skon_biztrip_web.Db.Session.Ends.{Ensures}
use skon_biztrip_web.Auth.Keys.{
  KeyRequest, serve_key, ApiKeyCreate, ApiKeyCreated, ApiKeyOut, active_count, max_active_keys,
  is_live, is_past, save_key, new_key, raw_key,
}
use skon_biztrip_web.Auth.Keys.Laws.{Issued, create_key-Issued, Revoked, revoke_key-Revoked}

live_count : ℕ → ℕ → List ApiKey → ℕ
live_count user_id now rows = length (select (is_live user_id now) rows)

is_past_mono :
    (moment : Option ℕ) (now later : ℕ)
    → now ≤ later
    → is_past moment now ≡ true
    → is_past moment later ≡ true
is_past_mono none now later h past = past
is_past_mono (some m) now later h past = ground arith

is_live_mono :
    (user_id now later : ℕ) (k : ApiKey)
    → now ≤ later
    → is_live user_id later k ≡ true
    → is_live user_id now k ≡ true
is_live_mono user_id now later k h live = ground (arith, is_past_mono k.expires_at now later h)

-- A key that is active later was active before.
live_count_mono :
    (user_id now later : ℕ) (rows : List ApiKey)
    → now ≤ later
    → live_count user_id later rows ≤ live_count user_id now rows
unfolding live_count
live_count_mono user_id now later [] h = ground arith
live_count_mono user_id now later (k ∷ rows) h =
    ground (arith, live_count_mono user_id now later rows h, is_live_mono user_id now later k h)

live_count-insert :
    (user_id now : ℕ) (build : ℕ → ApiKey) (keys : Table ApiKey)
    → live_count user_id now (insert build keys).rows
      ≤ (if (build keys.next_id).user_id == user_id then 1 else 0)
        + live_count user_id now keys.rows
unfolding live_count insert
live_count-insert user_id now build keys = ground arith

-- A revoked key does not count.
live_count-put_row :
    (user_id now moment : ℕ) (k : ApiKey) (rows : List ApiKey)
    → live_count user_id now (put_row (record k { revoked_at = some moment }) rows)
      ≤ live_count user_id now rows
unfolding live_count
live_count-put_row user_id now moment k [] = ground arith
live_count-put_row user_id now moment k (x ∷ rows) =
    ground (arith, live_count-put_row user_id now moment k rows)

-- At that time, every user has at most ten active keys.
abbrev pub KeysAreBounded : ℕ → Db → Type 0
KeysAreBounded now db = (user_id : ℕ) → active_count user_id now db ≤ max_active_keys

bounded_later :
    (now later : ℕ) (db : Db) → now ≤ later → KeysAreBounded now db → KeysAreBounded later db
unfolding active_count live_count
bounded_later now later db h b user_id =
    omega (arith, b user_id, live_count_mono user_id now later db.api_keys.rows h)

one_more :
    (mine : Bool) (n m : ℕ)
    → m ≤ (if mine then 1 else 0) + n
    → n ≤ 10
    → (mine ≡ true → n < 10)
    → m ≤ 10
one_more true n m h bound few = omega (arith, few refl)
one_more false n m h bound few = omega arith

Issued-KeysAreBounded :
    (hash_key : String → String) (token : String) (now : ℕ) (user : User) (payload : ApiKeyCreate)
    (db : Db) (created : ApiKeyCreated) (db' : Db)
    → KeysAreBounded now db
    → Issued hash_key token now user payload db created db'
    → KeysAreBounded now db'
unfolding active_count live_count
Issued-KeysAreBounded hash_key token now user payload db created db' b
      (scopes, valid, quota, unused, key, out, same) user_id =
    rw same (
      one_more (user.id == user_id) _ _ (live_count-insert user_id now fresh db.api_keys)
        (b user_id) (λ own. few user_id (ground arith)))
  where
    fresh : ℕ → ApiKey
    fresh = new_key hash_key user payload scopes (raw_key token) now

    few : (user_id : ℕ) → user.id ≡ user_id → live_count user_id now db.api_keys.rows < 10
    few user_id here = rw here at quota

Revoked-KeysAreBounded :
    (now : ℕ) (user : User) (key_id : ℕ) (db : Db) (out : ApiKeyOut) (db' : Db)
    → KeysAreBounded now db
    → Revoked now user key_id db out db'
    → KeysAreBounded now db'
unfolding active_count live_count save_key put
Revoked-KeysAreBounded now user key_id db out db' b (key, found, own, unrevoked, same) user_id =
    rw same (omega (arith, b user_id, live_count-put_row user_id now now key db.api_keys.rows))

still_bounded :
    {A : Type 0} {Q : A → Db → Type 0} (now : ℕ) (db : Db) (o : Result A × Db)
    → KeysAreBounded now db
    → Ensures db Q o
    → ((a : A) (db' : Db) → Q a db' → KeysAreBounded now db')
    → KeysAreBounded now o.1
still_bounded now db (ok a, db') b q keep = keep a db' q
still_bounded now db (err e, db') b q keep = rw q b

-- If every user has at most ten active keys, then so they have after any time and any request that
-- issues or revokes a key.
pub serve_key-KeysAreBounded :
    (hash_key : String → String) (request : KeyRequest) (now later : ℕ) (user : User) (db : Db)
    → now ≤ later
    → KeysAreBounded now db
    → KeysAreBounded later (serve_key hash_key request later user db)
unfolding serve_key
serve_key-KeysAreBounded hash_key (KeyRequest.issue token payload) now later user db h b =
    still_bounded later db _ (bounded_later now later db h b)
      (create_key-Issued hash_key token later user payload db)
      λ created db' q.
        Issued-KeysAreBounded hash_key token later user payload db created db'
          (bounded_later now later db h b) q
serve_key-KeysAreBounded hash_key (KeyRequest.revoke key_id) now later user db h b =
    still_bounded later db _ (bounded_later now later db h b)
      (revoke_key-Revoked later user key_id db)
      λ out db' q.
        Revoked-KeysAreBounded later user key_id db out db' (bounded_later now later db h b) q
