-- ===== src/Oauth/Provider.antt =====
-- `ServerFSOAuthProvider` of auth_provider.py. The login URL that `authorize` returns is left as the
-- transaction that it names, and `get_client` without the fetcher of client metadata documents.

use Prim.Native.Char.{Char, code}
use server_fs_mcp.Prelude.{
  String, Bool, List, Option, nat_eq, if◌then◌else◌, ℕ, true, ◌==◌, some, false, ◌&&◌, ◌∷◌, is_some,
  ◌++◌, none, ◌||◌, [], not, all,
}
use server_fs_mcp.Oauth.Tables.{
  Reply, Platform, err, AuthorizationCode, TokenPair, ok, Db, CompletedAuthorization, invalid_grant,
  invalid_client_metadata, invalid_target, invalid_redirect_uri, invalid_scope,
}
use server_fs_mcp.Sql.{delete, select_one}
use server_fs_mcp.Oauth.Logins.{
  create_pending_authorization, complete_pending_authorization, consume_authorization_code,
  AuthorizationParams,
}
use server_fs_mcp.Oauth.Tokens.{
  Rotation, rotate_refresh_token, revoke_token_pair, Grant, Secrets, issue_token_pair, scope_in,
}

abbrev is_slash : Char → Bool
is_slash c = nat_eq (code c) b'/'

-- str.rstrip("/")
unfoldable pub rstrip : String → String
rstrip String.[] = ""
rstrip (String.◌∷◌ c s) =
    let rest = rstrip s in if is_slash c && rest == "" then "" else String.◌∷◌ c rest

-- the attributes of `OAuthClientInformationFull` that the provider reads
pub record Client : Type 0 where
  pub client_id : String
  pub client_secret : Option String
  pub token_endpoint_auth_method : String
  pub redirect_uris : List String
  pub grant_types : List String
  pub response_types : List String

pub record Provider : Type 0 where
  pub issuer_url : String
  pub resource_url : String
  pub supported_scopes : List String
  pub access_token_ttl_seconds : ℕ
  pub refresh_token_ttl_seconds : ℕ

-- `__init__`
unfoldable pub new_provider : String → String → List String → ℕ → ℕ → Provider
unfolding rstrip
new_provider issuer resource scopes access_ttl refresh_ttl = record {
  issuer_url = rstrip issuer;
  resource_url = rstrip resource;
  supported_scopes = scopes;
  access_token_ttl_seconds = access_ttl;
  refresh_token_ttl_seconds = refresh_ttl;
}

abbrev pub is_empty {ℓ} : {A : Type ℓ} → List A → Bool
is_empty [] = true
is_empty (x ∷ xs) = false

unfoldable pub validate_public_client : Client → Reply (Unit {0})
validate_public_client c =
    if is_some c.client_secret || not (c.token_endpoint_auth_method == "none")
    then err invalid_client_metadata
    else if is_empty c.redirect_uris
    then err invalid_redirect_uri
    else if not (scope_in c.grant_types "authorization_code")
        || not (scope_in c.response_types "code")
    then err invalid_client_metadata
    else ok tt

-- `oauth_clients`, whose rows hold a client's JSON text
module _ (dump : Client → String) (load : String → Client) where
  abbrev row_of : String → String × String → Bool
  row_of client_id (id, payload) = id == client_id

  -- INSERT OR REPLACE
  unfoldable pub save_client : Client → List (String × String) → List (String × String)
  save_client c clients = delete (row_of c.client_id) clients ++ (c.client_id, dump c) ∷ []

  unfoldable pub get_client : String → List (String × String) → Option Client
  get_client client_id clients = elim (select_one (row_of client_id) clients) [
    | none ↦ none
    | some (_, payload) ↦ some (load payload)
  ]

  unfoldable pub register_client :
      Client → List (String × String) → Reply (Unit {0}) × List (String × String)
  unfolding validate_public_client save_client
  register_client c clients = elim (validate_public_client c) [
    | err e ↦ (err e, clients)
    | ok _ ↦ (ok tt, save_client c clients)
  ]

-- `list(params.scopes or self.supported_scopes)`
abbrev pub or_supported : Option (List String) → List String → List String
or_supported none supported = supported
or_supported (some []) supported = supported
or_supported (some (s ∷ ss)) supported = s ∷ ss

abbrev pub targets : Option String → String → Bool
targets none url = false
targets (some r) url = rstrip r == url

-- OAuthToken
pub record OauthToken : Type 0 where
  pub access_token : String
  pub expires_in : ℕ
  pub scopes : List String
  pub refresh_token : String

module _ (platform : Platform) (provider : Provider) where
  open provider use {
    issuer_url, resource_url, supported_scopes, access_token_ttl_seconds, refresh_token_ttl_seconds,
  }

  unfoldable pub authorize : String → AuthorizationParams → String → ℕ → Db → Reply String × Db
  unfolding create_pending_authorization rstrip
  authorize client_id params transaction now db =
      let scopes = or_supported params.scopes supported_scopes in
      if not (targets params.resource resource_url)
      then (err invalid_target, db)
      else if is_empty scopes || not (all (scope_in supported_scopes) scopes)
      then (err invalid_scope, db)
      else create_pending_authorization platform transaction client_id params scopes resource_url
          now db

  unfoldable pub complete_authorization :
      String → String → String → ℕ → Db → Reply (Option CompletedAuthorization) × Db
  unfolding complete_pending_authorization
  complete_authorization transaction subject code_value now db =
      if subject == ""
      then (ok none, db)
      else complete_pending_authorization platform transaction subject code_value now db

  abbrev pub granted : String → AuthorizationCode → Grant
  granted client_id c = record {
    client_id = client_id;
    scopes = c.scopes;
    resource = resource_url;
    subject = c.subject;
    issuer = issuer_url;
    access_ttl_seconds = access_token_ttl_seconds;
    refresh_ttl_seconds = refresh_token_ttl_seconds;
  }

  abbrev pub token_of : List String → Reply TokenPair × Db → Reply OauthToken × Db
  token_of scopes (err e, db) = (err e, db)
  token_of scopes (ok pair, db) = (
    ok (record {
      access_token = pair.access_token;
      expires_in = access_token_ttl_seconds;
      scopes = scopes;
      refresh_token = pair.refresh_token;
    }),
    db,
  )

  abbrev exchange_consumed :
      String → Option AuthorizationCode → Secrets → ℕ → Db → Reply OauthToken × Db
  exchange_consumed client_id none s now db = (err invalid_grant, db)
  exchange_consumed client_id (some stored) s now db =
      if not (stored.resource == resource_url) || stored.subject == ""
      then (err invalid_target, db)
      else token_of stored.scopes (issue_token_pair platform (granted client_id stored) s now db)

  unfoldable pub exchange_authorization_code :
      String → String → Secrets → ℕ → Db → Reply OauthToken × Db
  unfolding consume_authorization_code issue_token_pair
  exchange_authorization_code client_id code_value s now db =
      let (stored, db') = consume_authorization_code platform client_id code_value db in
      exchange_consumed client_id stored s now db'

  abbrev pub rotation : String → List String → Rotation
  rotation client_id scopes = record {
    client_id = client_id;
    scopes = scopes;
    issuer = issuer_url;
    access_ttl_seconds = access_token_ttl_seconds;
    refresh_ttl_seconds = refresh_token_ttl_seconds;
  }

  abbrev pub token_or_invalid : List String → Reply (Option TokenPair) × Db → Reply OauthToken × Db
  token_or_invalid scopes (err e, db) = (err e, db)
  token_or_invalid scopes (ok none, db) = (err invalid_grant, db)
  token_or_invalid scopes (ok (some pair), db) = token_of scopes (ok pair, db)

  unfoldable pub exchange_refresh_token :
      String → String → List String → Secrets → ℕ → Db → Reply OauthToken × Db
  unfolding rotate_refresh_token
  exchange_refresh_token client_id token scopes s now db =
      token_or_invalid scopes
        (rotate_refresh_token platform (rotation client_id scopes) token s now db)

  unfoldable pub revoke_token : String → Db → Db
  unfolding revoke_token_pair
  revoke_token token db = revoke_token_pair platform token db
