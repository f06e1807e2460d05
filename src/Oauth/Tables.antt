-- ===== src/Oauth/Tables.antt =====
-- The tables of `OAuthStateStore` in auth_store.py, and what its methods answer.
-- Times are readings of a clock in ticks. A list of scopes stands as itself where the table holds
-- its JSON text.
use server_fs_mcp.Prelude.{String, List, [], Option, Bool, ℕ}

-- what a method raises: a key constraint of SQLite, and the errors of the provider
pub data OauthError : Type 0 where
  integrity_error : OauthError
  invalid_grant invalid_target invalid_scope : OauthError
  invalid_client_metadata invalid_redirect_uri : OauthError

pub data Reply {ℓ} (A : Type ℓ) : Type ℓ where
  ok : A → Reply A
  err : OauthError → Reply A

pub record PendingAuthorization : Type 0 where
  pub transaction_hash : String
  pub client_id : String
  pub state : Option String
  pub scopes : List String
  pub code_challenge : String
  pub redirect_uri : String
  pub redirect_uri_provided : Bool
  pub resource : String
  pub expires_at : ℕ

pub record UpstreamLogin : Type 0 where
  pub state_hash : String
  pub provider : String
  pub pending_authorization_hash : String
  pub code_verifier : String
  pub expires_at : ℕ

pub record CodeRow : Type 0 where
  pub code_hash : String
  pub client_id : String
  pub scopes : List String
  pub expires_at : ℕ
  pub code_challenge : String
  pub redirect_uri : String
  pub redirect_uri_provided : Bool
  pub resource : String
  pub subject : String

pub record AccessRow : Type 0 where
  pub token_hash : String
  pub pair_id : String
  pub client_id : String
  pub scopes : List String
  pub expires_at : ℕ
  pub resource : String
  pub subject : String
  pub issuer : String

pub record RefreshRow : Type 0 where
  pub token_hash : String
  pub pair_id : String
  pub client_id : String
  pub scopes : List String
  pub expires_at : ℕ
  pub resource : String
  pub subject : String

pub record Db : Type 0 where
  pub pending : List PendingAuthorization
  pub logins : List UpstreamLogin
  pub codes : List CodeRow
  pub access : List AccessRow
  pub refresh : List RefreshRow

abbrev pub empty : Db
empty = record { pending = []; logins = []; codes = []; access = []; refresh = [] }

-- the records that the methods return

pub record AuthorizationCode : Type 0 where
  pub code : String
  pub scopes : List String
  pub expires_at : ℕ
  pub client_id : String
  pub code_challenge : String
  pub redirect_uri : String
  pub redirect_uri_provided_explicitly : Bool
  pub resource : String
  pub subject : String

pub record CompletedAuthorization : Type 0 where
  pub code : AuthorizationCode
  pub state : Option String

pub record UpstreamLoginTransaction : Type 0 where
  pub provider : String
  pub pending_authorization_hash : String
  pub code_verifier : String

pub record TokenPair : Type 0 where
  pub access_token : String
  pub refresh_token : String
  pub access_expires_at : ℕ
  pub refresh_expires_at : ℕ

pub record AccessToken : Type 0 where
  pub token : String
  pub client_id : String
  pub scopes : List String
  pub expires_at : ℕ
  pub resource : String
  pub subject : String
  pub issuer : String

pub record RefreshToken : Type 0 where
  pub token : String
  pub client_id : String
  pub scopes : List String
  pub expires_at : ℕ
  pub resource : String
  pub subject : String

-- the clock, and sha256 over the UTF-8 of a text, which are not code of the program
pub record Platform : Type 0 where
  pub digest : String → String
  pub ticks_per_second : ℕ
