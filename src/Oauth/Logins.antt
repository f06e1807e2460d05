-- ===== src/Oauth/Logins.antt =====
-- The methods of `OAuthStateStore` from the login page to the authorization code.
use server_fs_mcp.Prelude.{
  ℕ, String, Option, Bool, List, ◌==◌, ◌+◌, ◌&&◌, ◌*◌, if◌then◌else◌, some, leb, none, ◌++◌, ◌∷◌,
  [],
}
use server_fs_mcp.Oauth.Tables.{
  Platform, PendingAuthorization, UpstreamLogin, CodeRow, Reply, AuthorizationCode,
  UpstreamLoginTransaction, CompletedAuthorization, integrity_error, Db, err, ok,
}
use server_fs_mcp.Sql.{delete, select_one, exists}

-- _LOGIN_TRANSACTION_TTL_SECONDS, _AUTHORIZATION_CODE_TTL_SECONDS, _UPSTREAM_LOGIN_TTL_SECONDS
abbrev pub login_ttl : ℕ
login_ttl = 300

abbrev pub code_ttl : ℕ
code_ttl = 300

abbrev pub upstream_ttl : ℕ
upstream_ttl = 600

abbrev pub of_transaction : String → PendingAuthorization → Bool
of_transaction hash p = p.transaction_hash == hash

abbrev pub of_login : String → UpstreamLogin → Bool
of_login hash u = u.state_hash == hash

abbrev pub of_code : String → CodeRow → Bool
of_code hash c = c.code_hash == hash

-- the parameters of an authorization request that the store keeps
pub record AuthorizationParams : Type 0 where
  pub state : Option String
  pub code_challenge : String
  pub redirect_uri : String
  pub redirect_uri_provided_explicitly : Bool
  pub scopes : Option (List String)
  pub resource : Option String

module _ (platform : Platform) where
  open platform use {digest, ticks_per_second}

  abbrev pub pending_row :
      String → String → AuthorizationParams → List String → String → ℕ → PendingAuthorization
  pending_row transaction client_id params scopes resource now = record {
    transaction_hash = digest transaction;
    client_id = client_id;
    state = params.state;
    scopes = scopes;
    code_challenge = params.code_challenge;
    redirect_uri = params.redirect_uri;
    redirect_uri_provided = params.redirect_uri_provided_explicitly;
    resource = resource;
    expires_at = now + login_ttl * ticks_per_second;
  }

  -- `transaction` is what `secrets.token_urlsafe` gives
  unfoldable pub create_pending_authorization :
      String → String → AuthorizationParams → List String → String → ℕ → Db → Reply String × Db
  create_pending_authorization transaction client_id params scopes resource now db =
      if exists (of_transaction (digest transaction)) db.pending
      then (err integrity_error, db)
      else (
        ok transaction,
        record db {
          pending = db.pending ++ pending_row transaction client_id params scopes resource now ∷ [];
        },
      )

  abbrev pub code_row : PendingAuthorization → String → String → ℕ → CodeRow
  code_row row code_value subject now = record {
    code_hash = digest code_value;
    client_id = row.client_id;
    scopes = row.scopes;
    expires_at = now + code_ttl * ticks_per_second;
    code_challenge = row.code_challenge;
    redirect_uri = row.redirect_uri;
    redirect_uri_provided = row.redirect_uri_provided;
    resource = row.resource;
    subject = subject;
  }

  abbrev pub authorization_code_from_row : CodeRow → String → AuthorizationCode
  authorization_code_from_row row code_value = record {
    code = code_value;
    scopes = row.scopes;
    expires_at = row.expires_at;
    client_id = row.client_id;
    code_challenge = row.code_challenge;
    redirect_uri = row.redirect_uri;
    redirect_uri_provided_explicitly = row.redirect_uri_provided;
    resource = row.resource;
    subject = row.subject;
  }

  -- the pending row is deleted before its expiry is looked at; a raise rolls that back
  abbrev complete_row :
      PendingAuthorization
      → String
      → String
      → ℕ
      → Db
      → Db
      → Reply (Option CompletedAuthorization) × Db
  complete_row row subject code_value now db deleted =
      if leb row.expires_at now
      then (ok none, deleted)
      else if exists (of_code (digest code_value)) db.codes
      then (err integrity_error, db)
      else let new = code_row row code_value subject now in
        (
          ok (
              some
                (record { code = authorization_code_from_row new code_value; state = row.state })),
          record deleted { codes = db.codes ++ new ∷ [] },
        )

  unfoldable pub complete_pending_authorization_hash :
      String → String → String → ℕ → Db → Reply (Option CompletedAuthorization) × Db
  complete_pending_authorization_hash hash subject code_value now db =
      elim (select_one (of_transaction hash) db.pending) [
        | none ↦ (ok none, db)
        | some row ↦
            complete_row row subject code_value now db
              (record db { pending = delete (of_transaction hash) db.pending })
      ]

  unfoldable pub complete_pending_authorization :
      String → String → String → ℕ → Db → Reply (Option CompletedAuthorization) × Db
  unfolding complete_pending_authorization_hash
  complete_pending_authorization transaction =
      complete_pending_authorization_hash (digest transaction)

  abbrev pub login_row : String → String → String → String → ℕ → UpstreamLogin
  login_row state pending_hash provider code_verifier now = record {
    state_hash = digest state;
    provider = provider;
    pending_authorization_hash = pending_hash;
    code_verifier = code_verifier;
    expires_at = now + upstream_ttl * ticks_per_second;
  }

  abbrev pub login_for :
      Option PendingAuthorization → UpstreamLogin → String → ℕ → Db → Reply (Option String) × Db
  login_for none new state now db = (ok none, db)
  login_for (some row) new state now db =
      if leb row.expires_at now
      then (ok none, db)
      else if exists (of_login new.state_hash) db.logins
      then (err integrity_error, db)
      else (ok (some state), record db { logins = db.logins ++ new ∷ [] })

  unfoldable pub create_upstream_login :
      String → String → String → String → ℕ → Db → Reply (Option String) × Db
  create_upstream_login transaction state provider code_verifier now db =
      login_for (select_one (of_transaction (digest transaction)) db.pending)
        (login_row state (digest transaction) provider code_verifier now) state now db

  abbrev consumed_login : Option UpstreamLogin → ℕ → Db → Db → Option UpstreamLoginTransaction × Db
  consumed_login none now db deleted = (none, db)
  consumed_login (some row) now db deleted = if leb row.expires_at now then (none, deleted) else (
    some (record {
      provider = row.provider;
      pending_authorization_hash = row.pending_authorization_hash;
      code_verifier = row.code_verifier;
    }),
    deleted,
  )

  -- WHERE state_hash = ? AND provider = ?
  abbrev pub login_of : String → String → UpstreamLogin → Bool
  login_of state provider u = of_login (digest state) u && u.provider == provider

  unfoldable pub consume_upstream_login :
      String → String → ℕ → Db → Option UpstreamLoginTransaction × Db
  consume_upstream_login state provider now db =
      consumed_login (select_one (login_of state provider) db.logins) now db
        (record db { logins = delete (of_login (digest state)) db.logins })

  -- WHERE code_hash = ? AND client_id = ?
  abbrev pub code_of : String → String → CodeRow → Bool
  code_of client_id code_value c = of_code (digest code_value) c && c.client_id == client_id

  unfoldable pub load_authorization_code : String → String → Db → Option AuthorizationCode
  load_authorization_code client_id code_value db =
      elim (select_one (code_of client_id code_value) db.codes) [
        | none ↦ none
        | some row ↦ some (authorization_code_from_row row code_value)
      ]

  unfoldable pub consume_authorization_code : String → String → Db → Option AuthorizationCode × Db
  consume_authorization_code client_id code_value db =
      elim (select_one (code_of client_id code_value) db.codes) [
        | none ↦ (none, db)
        | some row ↦ (
          some (authorization_code_from_row row code_value),
          record db { codes = delete (of_code (digest code_value)) db.codes },
        )
      ]

unfoldable pub discard_pending_authorization_hash : String → Db → Db
discard_pending_authorization_hash hash db = record db {
  pending = delete (of_transaction hash) db.pending;
}
