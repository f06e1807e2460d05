-- ===== src/Oauth/Bound/Runs.antt =====
-- Any calls keep the tables bound to the provider, and what introspection then says of a token.
use server_fs_mcp.Oauth.Tables.{Platform, Db, AccessToken}
use server_fs_mcp.Oauth.Provider.{Provider, complete_authorization}
use server_fs_mcp.Oauth.Bound.{
  perform, run, Call, IsBound, authorizing, completing, Within, completing_hash, logging_in,
  logged_in, IsAccessBound, discarding, IsPendingBound, exchanging, refreshing, revoking,
}
use server_fs_mcp.Oauth.Tokens.{introspect_access_token, seconds, of_access, load_access_token}
use server_fs_mcp.Prelude.{
  List, String, ◌∷◌, ℕ, [], ◌≡◌, Bool-cases, some, ◌==◌, inl, ◌<◌, inr, false, Option-cases, leb,
  subst, arith, if◌then◌else◌, none, Option,
}
use server_fs_mcp.Oauth.Logins.{
  complete_pending_authorization, create_upstream_login, discard_pending_authorization_hash,
  of_transaction,
}
use server_fs_mcp.Oauth.Bound.Logins.{
  authorize-IsBound, complete-IsBound, login-IsBound, logged_in-IsBound,
}
use server_fs_mcp.Sql.{select_one}
use server_fs_mcp.Sql.Rows.{All-select_one, All-delete}
use server_fs_mcp.Oauth.Bound.Tokens.{exchange-IsBound, refresh-IsBound, revoke-IsBound}
use mathlib.Core.Option.{some-injective}

module _ (platform : Platform) (p : Provider) where
  named-IsBound :
      (transaction subject code : String) (now : ℕ) (db : Db)
      → IsBound p db
      → IsBound p (complete_authorization platform p transaction subject code now db).1
  unfolding complete_authorization complete_pending_authorization
  named-IsBound transaction subject code now db b = elim (Bool-cases (subject == "")) [
    | inl anonymous ↦ rw anonymous b
    | inr named ↦
        rw named (complete-IsBound platform p (platform.digest transaction) subject code now db b)
  ]

  perform-IsBound : (call : Call) (db : Db) → IsBound p db → IsBound p (perform platform p call db)
  unfolding perform complete_authorization complete_pending_authorization create_upstream_login
      discard_pending_authorization_hash
  perform-IsBound (authorizing client params transaction now) db b =
      authorize-IsBound platform p client params transaction now db b
  perform-IsBound (completing transaction subject code now) db b =
      named-IsBound transaction subject code now db b
  perform-IsBound (completing_hash hash subject code now) db b =
      complete-IsBound platform p hash subject code now db b
  perform-IsBound (logging_in transaction state provider verifier now) db b =
      login-IsBound platform p _ _ state now db b
  perform-IsBound (logged_in state provider now) db b =
      logged_in-IsBound platform p state provider now db b
  perform-IsBound (discarding hash) db b = record {
    pending = All-delete (IsPendingBound p) (of_transaction hash) db.pending b.pending;
    codes = b.codes;
    access = b.access;
    refresh = b.refresh;
  }
  perform-IsBound (exchanging client code s now) db b =
      exchange-IsBound platform p client code s now db b
  perform-IsBound (refreshing client token scopes s now) db b =
      refresh-IsBound platform p client token scopes s now db b
  perform-IsBound (revoking token) db b = revoke-IsBound platform p token db b

  -- After any calls from tables that are bound to the provider, failing or not, the tables are bound
  -- to it: each pending authorization, code, access token and refresh token is for the provider's
  -- resource and for supported scopes only, and tokens have a subject and come from the issuer.
  pub run-IsBound :
      (calls : List Call) (db : Db) → IsBound p db → IsBound p (run platform p calls db)
  unfolding run
  run-IsBound [] db b = b
  run-IsBound (call ∷ calls) db b =
      run-IsBound calls (perform platform p call db) (perform-IsBound call db b)

  live_lem :
      (u t : AccessToken) (now : ℕ)
      → (if leb u.expires_at (seconds platform now) then none else some u) ≡ some t
      → (u ≡ t) × (seconds platform now < u.expires_at)
  live_lem u t now h = elim (Bool-cases (leb u.expires_at (seconds platform now))) [
    | inl late ↦ cc (rw late at h)
    | inr live ↦
        let same : Path (Option AccessToken) (some u) (some t) = rw live at h in
        (some-injective u t same, ground (arith, live))
  ]

  -- A token that introspection calls active after any calls from bound tables has not expired, is
  -- for the provider's resource and for supported scopes only, has a subject, and names the issuer.
  pub active_token_bound :
      (calls : List Call) (db : Db) (token : String) (now : ℕ) {t : AccessToken}
      → IsBound p db
      → introspect_access_token platform token now (run platform p calls db) ≡ some t
      → (seconds platform now < t.expires_at)
        × (t.resource ≡ p.resource_url)
        × Within p.supported_scopes t.scopes
        × ((t.subject == "") ≡ false)
        × (t.issuer ≡ p.issuer_url)
  unfolding introspect_access_token
  active_token_bound calls db token now {t} b h =
      elim (Option-cases
        (select_one (of_access (platform.digest token)) (run platform p calls db).access)) [
          | inl e ↦ cc (rw (e, load_access_token) at h)
          | inr (row, e) ↦
              let bound : IsAccessBound p row =
                All-select_one (IsAccessBound p) (of_access (platform.digest token))
                  (run platform p calls db).access row (run-IsBound calls db b).access e in
              let (same, live) =
                live_lem
                  (record {
                    token = token;
                    client_id = row.client_id;
                    scopes = row.scopes;
                    expires_at = row.expires_at;
                    resource = row.resource;
                    subject = row.subject;
                    issuer = row.issuer;
                  })
                  t now (rw (e, load_access_token) at h) in
              subst
                (λ u.
                  (seconds platform now < u.expires_at)
                  × (u.resource ≡ p.resource_url)
                  × Within p.supported_scopes u.scopes
                  × ((u.subject == "") ≡ false)
                  × (u.issuer ≡ p.issuer_url))
                same (live, bound.resource, bound.scopes, bound.subject, bound.issuer)
        ]
