-- ===== src/Tests/Oauth.antt =====
-- A login, an exchange and a refresh through the OAuth provider, with texts as their own digests.
use server_fs_mcp.Prelude.{[], ◌∷◌, List, ◌/◌, ◌≡◌, none, true, ◌<◌, refl, ◌==◌, some, false, map}
use server_fs_mcp.Oauth.Tables.{
  Platform, PendingAuthorization, UpstreamLogin, CodeRow, Db, AccessToken, CompletedAuthorization,
  UpstreamLoginTransaction, err, ok, invalid_grant, TokenPair,
}
use server_fs_mcp.Oauth.Provider.{Provider, OauthToken, exchange_authorization_code, revoke_token}
use server_fs_mcp.Oauth.Tokens.{
  Secrets, issue_token_pair, introspect_access_token, load_access_token, Rotation,
  rotate_refresh_token,
}
use server_fs_mcp.Oauth.Rotated.{rotate_once, refresh_key}
use server_fs_mcp.Oauth.Bound.{
  IsBound, run, Call, perform, exchanging, Within, completing, refreshing,
}
use server_fs_mcp.Oauth.Logins.{
  complete_pending_authorization_hash, consume_upstream_login, consume_authorization_code,
}
use server_fs_mcp.Oauth.Bound.Runs.{run-IsBound, active_token_bound}
use server_fs_mcp.Sql.{select_one, delete, exists}
use server_fs_mcp.Oauth.SingleUse.{complete_once, exchange_code_once}
use server_fs_mcp.Sql.Keys.{AreDistinct}
use server_fs_mcp.Oauth.Revoked.{revoke_token_dead, access_key}

abbrev platform : Platform
platform = record { digest = λ s. s; ticks_per_second = 1 }

abbrev provider : Provider
provider = record {
  issuer_url = "https://issuer";
  resource_url = "https://mcp";
  supported_scopes = "files" ∷ [];
  access_token_ttl_seconds = 60;
  refresh_token_ttl_seconds = 600;
}

abbrev pending : PendingAuthorization
pending = record {
  transaction_hash = "t";
  client_id = "client";
  state = none;
  scopes = "files" ∷ [];
  code_challenge = "c";
  redirect_uri = "http://localhost";
  redirect_uri_provided = true;
  resource = "https://mcp";
  expires_at = 300;
}

abbrev login : UpstreamLogin
login = record {
  state_hash = "s";
  provider = "github";
  pending_authorization_hash = "t";
  code_verifier = "v";
  expires_at = 300;
}

abbrev code : CodeRow
code = record {
  code_hash = "code";
  client_id = "client";
  scopes = "files" ∷ [];
  expires_at = 300;
  code_challenge = "c";
  redirect_uri = "http://localhost";
  redirect_uri_provided = true;
  resource = "https://mcp";
  subject = "alice";
}

abbrev secrets : Secrets
secrets = record { access_token = "access"; refresh_token = "refresh"; pair_id = "pair" }

abbrev waiting : Db
waiting = record {
  pending = pending ∷ [];
  logins = login ∷ [];
  codes = code ∷ [];
  access = [];
  refresh = [];
}

abbrev issued : OauthToken
issued = record {
  access_token = "access";
  expires_in = 60;
  scopes = "files" ∷ [];
  refresh_token = "refresh";
}

exchanged :
    (exchange_authorization_code platform provider "client" "code" secrets 10 waiting).0 ≡ ok issued
unfolding exchange_authorization_code consume_authorization_code issue_token_pair select_one delete
    exists
exchanged = refl

abbrev new_secrets : Secrets
new_secrets = record { access_token = "access2"; refresh_token = "refresh2"; pair_id = "pair2" }

abbrev granted_db : Db
granted_db = (exchange_authorization_code platform provider "client" "code" secrets 10 waiting).1

-- calls that come between a first and a second use
abbrev between : List Call
between =
    completing "t" "alice" "later" 20
    ∷ refreshing "client" "refresh" ("files" ∷ []) new_secrets 30
    ∷ []

exchange_code_once_example :
    exchange_authorization_code platform provider "client" "code" secrets 40
      (run platform provider between granted_db)
    ≡ (err invalid_grant, run platform provider between granted_db)
exchange_code_once_example =
    exchange_code_once platform provider "client" "client" "code" secrets secrets 10 40 waiting
      between exchanged (refl, (refl, tt))

waiting-IsBound : IsBound provider waiting
waiting-IsBound = record {
  pending = (record { resource = refl; scopes = refl }, tt);
  codes = (record { resource = refl; scopes = refl }, tt);
  access = tt;
  refresh = tt;
}

abbrev calls : List Call
calls = exchanging "client" "code" secrets 10 ∷ []

abbrev active : AccessToken
active = record {
  token = "access";
  client_id = "client";
  scopes = "files" ∷ [];
  expires_at = 70;
  resource = "https://mcp";
  subject = "alice";
  issuer = "https://issuer";
}

introspected :
    introspect_access_token platform "access" 20 (run platform provider calls waiting) ≡ some active
unfolding run perform introspect_access_token load_access_token exchange_authorization_code
    consume_authorization_code issue_token_pair select_one delete exists
introspected = refl

active_token_bound_example :
    (20 / 1 < active.expires_at)
    × (active.resource ≡ "https://mcp")
    × Within ("files" ∷ []) active.scopes
    × ((active.subject == "") ≡ false)
    × (active.issuer ≡ "https://issuer")
active_token_bound_example =
    active_token_bound platform provider calls waiting "access" 20 waiting-IsBound introspected

run-IsBound_example : IsBound provider (run platform provider calls waiting)
run-IsBound_example = run-IsBound platform provider calls waiting waiting-IsBound

abbrev completed : CompletedAuthorization
completed = record {
  code = record {
    code = "new";
    scopes = "files" ∷ [];
    expires_at = 310;
    client_id = "client";
    code_challenge = "c";
    redirect_uri = "http://localhost";
    redirect_uri_provided_explicitly = true;
    resource = "https://mcp";
    subject = "alice";
  };
  state = none;
}

login_completed :
    (complete_pending_authorization_hash platform "t" "alice" "new" 10 waiting).0
    ≡ ok (some completed)
unfolding complete_pending_authorization_hash select_one delete exists
login_completed = refl

complete_once_example :
    complete_pending_authorization_hash platform "t" "bob" "newer" 40 (
      run platform provider between
        (complete_pending_authorization_hash platform "t" "alice" "new" 10 waiting).1)
    ≡ (
      ok none,
      run platform provider between
          (complete_pending_authorization_hash platform "t" "alice" "new" 10 waiting).1,
    )
complete_once_example =
    complete_once platform provider "t" "alice" "bob" "new" "newer" 10 40 waiting between
      login_completed (refl, (refl, tt))

abbrev consumed : UpstreamLoginTransaction
consumed = record { provider = "github"; pending_authorization_hash = "t"; code_verifier = "v" }

login_consumed : (consume_upstream_login platform "s" "github" 10 waiting).0 ≡ some consumed
unfolding consume_upstream_login select_one delete
login_consumed = refl

granted_distinct : AreDistinct (map access_key granted_db.access)
unfolding exchange_authorization_code consume_authorization_code issue_token_pair select_one delete
    exists
granted_distinct = (refl, tt)

revoke_token_dead_example :
    introspect_access_token platform "access" 40
      (run platform provider between (revoke_token platform provider "access" granted_db))
    ≡ none
revoke_token_dead_example =
    revoke_token_dead platform provider "access" 40 granted_db between granted_distinct
      (refl, (refl, tt))

abbrev new_rotation : Rotation
new_rotation = record {
  client_id = "client";
  scopes = "files" ∷ [];
  issuer = "https://issuer";
  access_ttl_seconds = 60;
  refresh_ttl_seconds = 600;
}

abbrev new_pair : TokenPair
new_pair = record {
  access_token = "access2";
  refresh_token = "refresh2";
  access_expires_at = 80;
  refresh_expires_at = 620;
}

refresh_distinct : AreDistinct (map refresh_key granted_db.refresh)
unfolding exchange_authorization_code consume_authorization_code issue_token_pair select_one delete
    exists
refresh_distinct = (refl, tt)

token_rotated :
    (rotate_refresh_token platform new_rotation "refresh" new_secrets 20 granted_db).0
    ≡ ok (some new_pair)
unfolding rotate_refresh_token exchange_authorization_code consume_authorization_code
    issue_token_pair select_one delete exists
token_rotated = refl

rotate_once_example :
    rotate_refresh_token platform new_rotation "refresh" secrets 41 (
      run platform provider between
        (rotate_refresh_token platform new_rotation "refresh" new_secrets 20 granted_db).1)
    ≡ (
      ok none,
      run platform provider between
          (rotate_refresh_token platform new_rotation "refresh" new_secrets 20 granted_db).1,
    )
rotate_once_example =
    rotate_once platform provider new_rotation new_rotation "refresh" new_secrets secrets 20 41
      granted_db between refresh_distinct refl token_rotated (refl, (refl, tt))
