-- ===== src/Tests/Keys.antt =====
-- Runs of the API keys, with the text itself for its hash.
use skon_biztrip_web.Base.{◌≡◌, refl, none, some, List, [], ◌∷◌, map, upper, arith}
use skon_biztrip_web.Errors.{ok, err, is_ok, auth_error}
use skon_biztrip_web.Db.Table.{get, put, insert}
use skon_biztrip_web.Db.Rows.{ApiKey, api_key_entity, user_entity}
use skon_biztrip_web.Db.Session.{Db, handle, opened, ◌>>=◌}
use skon_biztrip_web.Auth.Scopes.{Route, required_scope_for, assert_scope_table_complete}
use skon_biztrip_web.Auth.Scopes.Table.{Requirement, scope_requirements}
use skon_biztrip_web.Auth.Scopes.Laws.{has_route, required_scope_for-has_route}
use skon_biztrip_web.Auth.Keys.{
  ApiKeyCreated, ApiKeyOut, KeyState, KeyRequest, create_key, revoke_key, authenticate_key,
  serve_key, key_state, raw_key, add_key, save_key, load_key, active_count, validate_scopes,
}
use skon_biztrip_web.Auth.Keys.Laws.{create_key-authenticate_key, revoke_key-authenticate_key}
use skon_biztrip_web.Auth.Keys.Bounds.{KeysAreBounded, serve_key-KeysAreBounded}
use skon_biztrip_web.Tests.Data.{company}
use skon_biztrip_web.Tests.Office.{staff, office, issued, hashed, agent_key}

abbrev routes : List Route
routes = map (λ (r : Requirement). (r.0, r.1)) scope_requirements

complete : assert_scope_table_complete routes scope_requirements ≡ ok tt
unfolding assert_scope_table_complete scope_requirements
complete = refl

required_scope_for-has_route_example :
    is_ok (required_scope_for "get" "/api/v1/trips")
    ≡ has_route routes (upper "get") "/api/v1/trips"
required_scope_for-has_route_example =
    required_scope_for-has_route routes "get" "/api/v1/trips" complete

abbrev second : ApiKey
second = record issued { id = 2; key_prefix = "sk_live_0f"; key_hash = "sk_live_0f" }

abbrev created : ApiKeyCreated
created = record {
  out = record {
    id = 2;
    name = "agent";
    key_prefix = "sk_live_0f";
    scopes = "trips:read" ∷ [];
    state = KeyState.active;
    last_used_at = none;
    expires_at = none;
    revoked_at = none;
  };
  key = "sk_live_0f";
}

abbrev two_keys : Db
two_keys = record office { api_keys = record { rows = second ∷ issued ∷ []; next_id = 3 } }

creation : handle (create_key hashed "0f" 5 staff agent_key) office ≡ (ok created, two_keys)
unfolding handle ◌>>=◌ create_key validate_scopes active_count raw_key add_key insert key_state
creation = refl

staff_stored : get 1 office.users ≡ some staff
unfolding get
staff_stored = refl

create_key-authenticate_key_example :
    (authenticate_key hashed 9 "sk_live_0f" (opened two_keys)).0 ≡ ok (staff, "trips:read" ∷ [])
create_key-authenticate_key_example =
    create_key-authenticate_key hashed "0f" 5 staff agent_key office created two_keys 9 staff
      creation staff_stored refl refl

abbrev revoked_out : ApiKeyOut
revoked_out = record {
  id = 1;
  name = "agent";
  key_prefix = "sk_live_abc";
  scopes = "trips:read" ∷ [];
  state = KeyState.revoked;
  last_used_at = none;
  expires_at = none;
  revoked_at = some 5;
}

abbrev one_revoked : Db
one_revoked = record office {
  api_keys = record { rows = record issued { revoked_at = some 5 } ∷ []; next_id = 2 };
}

revocation : handle (revoke_key 5 staff 1) office ≡ (ok revoked_out, one_revoked)
unfolding handle ◌>>=◌ revoke_key load_key save_key get put key_state
revocation = refl

key_stored : get 1 office.api_keys ≡ some issued
unfolding get
key_stored = refl

revoke_key-authenticate_key_example :
    (authenticate_key hashed 9 "sk_live_abc" (opened one_revoked)).0
    ≡ err (auth_error "API_KEY_REVOKED" none)
revoke_key-authenticate_key_example =
    revoke_key-authenticate_key hashed "sk_live_abc" 5 9 staff office issued revoked_out one_revoked
      key_stored refl refl revocation

no_keys : KeysAreBounded 5 company
unfolding active_count
no_keys user_id = ground arith

serve_key-KeysAreBounded_example :
    KeysAreBounded 9 (serve_key hashed (KeyRequest.issue "0f" agent_key) 9 staff company)
serve_key-KeysAreBounded_example =
    serve_key-KeysAreBounded hashed (KeyRequest.issue "0f" agent_key) 5 9 staff company
      (ground arith) no_keys
