-- ===== src/Oauth/Bound.antt =====
-- Everything that the provider stores is bound to its resource and to its scopes.
pub mod Logins
pub mod Tokens
pub mod Runs
use server_fs_mcp.Prelude.{
  List, String, all, ◌≡◌, All, ℕ, ◌∷◌, true, ◌==◌, false, [], Bool, Bool-cases, arith, All-append,
  Option-cases, Option, if◌then◌else◌, inl, refl, eq_iff, inr, some, none, not, leb, ◌||◌, ◌<◌,
}
use server_fs_mcp.Oauth.Provider.{
  Provider, authorize, complete_authorization, exchange_authorization_code, exchange_refresh_token,
  revoke_token, or_supported, targets, is_empty, token_of, granted, token_or_invalid, rotation,
}
use server_fs_mcp.Oauth.Tables.{
  Platform, PendingAuthorization, CodeRow, AccessRow, RefreshRow, Db, UpstreamLogin, Reply,
  TokenPair, ok, err, empty, AccessToken,
}
use server_fs_mcp.Oauth.Logins.{
  AuthorizationParams, complete_pending_authorization_hash, create_pending_authorization,
  create_upstream_login, consume_upstream_login, discard_pending_authorization_hash, of_transaction,
  login_for, pending_row, code_row, of_code, code_of, of_login, consume_authorization_code,
  authorization_code_from_row, login_of, complete_pending_authorization,
}
use server_fs_mcp.Oauth.Tokens.{
  scope_in, Secrets, drop_pair, Grant, insert_token_pair, access_pair, refresh_pair, access_row,
  refresh_row, refresh_of, of_access, seconds, of_refresh, rotated, introspect_access_token,
  to_option, load_access_token,
}
use server_fs_mcp.Sql.{select_one, delete, exists}
use server_fs_mcp.Sql.Rows.{All-delete, All-select_one}

-- every one of the scopes is supported
abbrev pub Within : List String → List String → Type 0
Within supported scopes = all (scope_in supported) scopes ≡ true

pub record IsPendingBound (p : Provider) (r : PendingAuthorization) : Type 0 where
  pub resource : r.resource ≡ p.resource_url
  pub scopes : Within p.supported_scopes r.scopes

pub record IsCodeBound (p : Provider) (r : CodeRow) : Type 0 where
  pub resource : r.resource ≡ p.resource_url
  pub scopes : Within p.supported_scopes r.scopes

pub record IsAccessBound (p : Provider) (r : AccessRow) : Type 0 where
  pub resource : r.resource ≡ p.resource_url
  pub scopes : Within p.supported_scopes r.scopes
  pub subject : (r.subject == "") ≡ false
  pub issuer : r.issuer ≡ p.issuer_url

pub record IsRefreshBound (p : Provider) (r : RefreshRow) : Type 0 where
  pub resource : r.resource ≡ p.resource_url
  pub scopes : Within p.supported_scopes r.scopes
  pub subject : (r.subject == "") ≡ false

pub record IsBound (p : Provider) (db : Db) : Type 0 where
  pub pending : All (IsPendingBound p) db.pending
  pub codes : All (IsCodeBound p) db.codes
  pub access : All (IsAccessBound p) db.access
  pub refresh : All (IsRefreshBound p) db.refresh

pub empty-IsBound : (p : Provider) → IsBound p empty
empty-IsBound p = record { pending = tt; codes = tt; access = tt; refresh = tt }

-- the calls of the provider and its login pages that change the tables
pub data Call : Type 0 where
  authorizing : String → AuthorizationParams → String → ℕ → Call
  completing : String → String → String → ℕ → Call
  completing_hash : String → String → String → ℕ → Call
  logging_in : String → String → String → String → ℕ → Call
  logged_in : String → String → ℕ → Call
  discarding : String → Call
  exchanging : String → String → Secrets → ℕ → Call
  refreshing : String → String → List String → Secrets → ℕ → Call
  revoking : String → Call

module _ (platform : Platform) (p : Provider) where
  unfoldable pub perform : Call → Db → Db
  perform (authorizing client params transaction now) db =
      (authorize platform p client params transaction now db).1
  perform (completing transaction subject code now) db =
      (complete_authorization platform p transaction subject code now db).1
  perform (completing_hash hash subject code now) db =
      (complete_pending_authorization_hash platform hash subject code now db).1
  perform (logging_in transaction state provider verifier now) db =
      (create_upstream_login platform transaction state provider verifier now db).1
  perform (logged_in state provider now) db =
      (consume_upstream_login platform state provider now db).1
  perform (discarding hash) db = discard_pending_authorization_hash hash db
  perform (exchanging client code s now) db =
      (exchange_authorization_code platform p client code s now db).1
  perform (refreshing client token scopes s now) db =
      (exchange_refresh_token platform p client token scopes s now db).1
  perform (revoking token) db = revoke_token platform p token db

  unfoldable pub run : List Call → Db → Db
  run [] db = db
  run (c ∷ cs) db = run cs (perform c db)
