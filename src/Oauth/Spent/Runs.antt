-- ===== src/Oauth/Spent/Runs.antt =====
-- Calls that draw other secrets keep hashes away that are gone (auth_store.py, auth_provider.py).
use server_fs_mcp.Prelude.{
  String, List, ℕ, Option, ◌≡◌, ◌==◌, ◌||◌, ◌∷◌, [], All, All-append, true, false, all, not, some,
  none, Bool-cases, Option-cases, inl, inr, leb, arith,
}
use server_fs_mcp.Sql.{select_one, delete, exists}
use server_fs_mcp.Sql.Rows.{All-delete}
use server_fs_mcp.Oauth.Tables.{Platform, Db, PendingAuthorization, UpstreamLogin}
use server_fs_mcp.Oauth.Logins.{
  AuthorizationParams, of_transaction, of_code, of_login, code_of, login_of, login_for,
  create_pending_authorization, complete_pending_authorization_hash, complete_pending_authorization,
  create_upstream_login, consume_upstream_login, consume_authorization_code,
  discard_pending_authorization_hash, authorization_code_from_row,
}
use server_fs_mcp.Oauth.Tokens.{
  Grant, Secrets, insert_token_pair, drop_pair, access_pair, refresh_pair, of_access, of_refresh,
  refresh_of, scope_in, seconds, rotated,
}
use server_fs_mcp.Oauth.Provider.{
  Provider, authorize, complete_authorization, exchange_authorization_code, exchange_refresh_token,
  revoke_token, or_supported, targets, is_empty, granted, rotation,
}
use server_fs_mcp.Oauth.Bound.{
  Call, authorizing, completing, completing_hash, logging_in, logged_in, discarding, exchanging,
  refreshing, revoking, perform, run,
}
use server_fs_mcp.Oauth.Bound.Tokens.{state-token_of, state-token_or_invalid}
use server_fs_mcp.Oauth.Spent.{Marks, IsFree, draws_other}

module _ (platform : Platform) (p : Provider) (m : Marks) where
  open platform use {digest}

  authorize-IsFree :
      (client : String) (params : AuthorizationParams) (transaction : String) (now : ℕ) (db : Db)
      → m.pending (digest transaction) ≡ false
      → IsFree m db
      → IsFree m (authorize platform p client params transaction now db).1
  unfolding authorize create_pending_authorization
  authorize-IsFree client params transaction now db other f =
      let scopes = or_supported params.scopes p.supported_scopes in
      elim (Bool-cases (not (targets params.resource p.resource_url))) [
        | inl off ↦ rw off f
        | inr on ↦
            elim (Bool-cases (is_empty scopes || not (all (scope_in p.supported_scopes) scopes))) [
              | inl outside ↦ rw (on, outside) f
              | inr within ↦
                  elim (Bool-cases (exists (of_transaction (digest transaction)) db.pending)) [
                    | inl clash ↦ rw (on, within, clash) f
                    | inr fresh ↦
                        rw (on, within, fresh)
                          (record {
                            pending = All-append _ db.pending _ f.pending (other, tt);
                            codes = f.codes;
                            access = f.access;
                            refresh = f.refresh;
                          })
                  ]
            ]
      ]

  complete-IsFree :
      (hash subject code : String) (now : ℕ) (db : Db)
      → m.codes (digest code) ≡ false
      → IsFree m db
      → IsFree m (complete_pending_authorization_hash platform hash subject code now db).1
  unfolding complete_pending_authorization_hash
  complete-IsFree hash subject code now db other f =
      elim (Option-cases (select_one (of_transaction hash) db.pending)) [
        | inl e ↦ rw (e, complete_pending_authorization_hash) f
        | inr (row, e) ↦
            let left = All-delete _ (of_transaction hash) db.pending f.pending in
            elim (Bool-cases (leb row.expires_at now)) [
              | inl late ↦
                  rw (e, complete_pending_authorization_hash, late)
                    (record {
                      pending = left;
                      codes = f.codes;
                      access = f.access;
                      refresh = f.refresh;
                    })
              | inr intime ↦ elim (Bool-cases (exists (of_code (digest code)) db.codes)) [
                | inl clash ↦ rw (e, complete_pending_authorization_hash, intime, clash) f
                | inr fresh ↦
                    rw (e, complete_pending_authorization_hash, intime, fresh)
                      (record {
                        pending = left;
                        codes = All-append _ db.codes _ f.codes (other, tt);
                        access = f.access;
                        refresh = f.refresh;
                      })
              ]
            ]
      ]

  named-IsFree :
      (transaction subject code : String) (now : ℕ) (db : Db)
      → m.codes (digest code) ≡ false
      → IsFree m db
      → IsFree m (complete_authorization platform p transaction subject code now db).1
  unfolding complete_authorization complete_pending_authorization
  named-IsFree transaction subject code now db other f = elim (Bool-cases (subject == "")) [
    | inl anonymous ↦ rw anonymous f
    | inr named ↦ rw named (complete-IsFree (digest transaction) subject code now db other f)
  ]

  with_logins :
      (db : Db) (ls : List UpstreamLogin) → IsFree m db → IsFree m (record db { logins = ls })
  with_logins db ls f = record {
    pending = f.pending;
    codes = f.codes;
    access = f.access;
    refresh = f.refresh;
  }

  login-IsFree :
      (row : Option PendingAuthorization) (new : UpstreamLogin) (state : String) (now : ℕ) (db : Db)
      → IsFree m db
      → IsFree m (login_for platform row new state now db).1
  login-IsFree none new state now db f = f
  login-IsFree (some row) new state now db f = elim (Bool-cases (leb row.expires_at now)) [
    | inl late ↦ rw late f
    | inr intime ↦ elim (Bool-cases (exists (of_login new.state_hash) db.logins)) [
      | inl clash ↦ rw (intime, clash) f
      | inr fresh ↦ rw (intime, fresh) (with_logins db _ f)
    ]
  ]

  logged_in-IsFree :
      (state provider : String) (now : ℕ) (db : Db)
      → IsFree m db
      → IsFree m (consume_upstream_login platform state provider now db).1
  unfolding consume_upstream_login
  logged_in-IsFree state provider now db f =
      elim (Option-cases (select_one (login_of platform state provider) db.logins)) [
        | inl e ↦ rw e f
        | inr (row, e) ↦ elim (Bool-cases (leb row.expires_at now)) [
          | inl late ↦ rw (e, late) (with_logins db _ f)
          | inr intime ↦ rw (e, intime) (with_logins db _ f)
        ]
      ]

  drop_pair-IsFree : (pair : String) (db : Db) → IsFree m db → IsFree m (drop_pair pair db)
  drop_pair-IsFree pair db f = record {
    pending = f.pending;
    codes = f.codes;
    access = All-delete _ (access_pair pair) db.access f.access;
    refresh = All-delete _ (refresh_pair pair) db.refresh f.refresh;
  }

  insert-IsFree :
      (g : Grant) (s : Secrets) (now : ℕ) (before db : Db)
      → m.access (digest s.access_token) ≡ false
      → m.refresh (digest s.refresh_token) ≡ false
      → IsFree m before
      → IsFree m db
      → IsFree m (insert_token_pair platform g s now before db).1
  insert-IsFree g s now before db other other' b f =
      elim (Bool-cases (
        exists (of_access (digest s.access_token)) db.access
        || exists (of_refresh (digest s.refresh_token)) db.refresh)) [
          | inl clash ↦ rw clash b
          | inr fresh ↦ rw fresh (record {
            pending = f.pending;
            codes = f.codes;
            access = All-append _ db.access _ f.access (other, tt);
            refresh = All-append _ db.refresh _ f.refresh (other', tt);
          })
        ]

  consumed-IsFree :
      (code : String) (db : Db)
      → IsFree m db
      → IsFree m (record db { codes = delete (of_code (digest code)) db.codes })
  consumed-IsFree code db f = record {
    pending = f.pending;
    codes = All-delete _ (of_code (digest code)) db.codes f.codes;
    access = f.access;
    refresh = f.refresh;
  }

  exchange-IsFree :
      (client code : String) (s : Secrets) (now : ℕ) (db : Db)
      → m.access (digest s.access_token) ≡ false
      → m.refresh (digest s.refresh_token) ≡ false
      → IsFree m db
      → IsFree m (exchange_authorization_code platform p client code s now db).1
  unfolding exchange_authorization_code
  exchange-IsFree client code s now db other other' f =
      elim (Option-cases (select_one (code_of platform client code) db.codes)) [
        | inl e ↦ rw (e, consume_authorization_code) f
        | inr (row, e) ↦
            elim (Bool-cases (not (row.resource == p.resource_url) || row.subject == "")) [
              | inl bad ↦ rw (e, consume_authorization_code, bad) (consumed-IsFree code db f)
              | inr good ↦
                  rw (e, consume_authorization_code, good, state-token_of platform p)
                    (insert-IsFree
                      (granted platform p client (authorization_code_from_row platform row code)) s
                      now _ _ other other' (consumed-IsFree code db f) (consumed-IsFree code db f))
            ]
      ]

  refresh-IsFree :
      (client token : String) (scopes : List String) (s : Secrets) (now : ℕ) (db : Db)
      → m.access (digest s.access_token) ≡ false
      → m.refresh (digest s.refresh_token) ≡ false
      → IsFree m db
      → IsFree m (exchange_refresh_token platform p client token scopes s now db).1
  unfolding exchange_refresh_token
  refresh-IsFree client token scopes s now db other other' f =
      elim (Option-cases (select_one (refresh_of platform client token) db.refresh)) [
        | inl e ↦ rw e f
        | inr (row, e) ↦
            elim (Bool-cases (
              leb row.expires_at (seconds platform now)
              || not (all (scope_in row.scopes) scopes))) [
                | inl bad ↦ rw (e, bad) f
                | inr good ↦
                    rw (e, good, state-token_or_invalid platform p)
                      (insert-IsFree (rotated platform (rotation platform p client scopes) row) s
                        now _ _ other other' f (drop_pair-IsFree row.pair_id db f))
              ]
      ]

  revoke-IsFree :
      (token : String) (db : Db) → IsFree m db → IsFree m (revoke_token platform p token db)
  unfolding revoke_token
  revoke-IsFree token db f = elim (Option-cases (select_one (of_access (digest token)) db.access)) [
    | inr (row, e) ↦ rw e (drop_pair-IsFree row.pair_id db f)
    | inl e ↦ elim (Option-cases (select_one (of_refresh (digest token)) db.refresh)) [
      | inr (row, g) ↦ rw (e, g) (drop_pair-IsFree row.pair_id db f)
      | inl g ↦ rw (e, g) f
    ]
  ]

  perform-IsFree :
      (call : Call) (db : Db)
      → draws_other platform m call ≡ true
      → IsFree m db
      → IsFree m (perform platform p call db)
  unfolding perform create_upstream_login discard_pending_authorization_hash
  perform-IsFree (authorizing client params transaction now) db d f =
      authorize-IsFree client params transaction now db (ground (arith, d)) f
  perform-IsFree (completing transaction subject code now) db d f =
      named-IsFree transaction subject code now db (ground (arith, d)) f
  perform-IsFree (completing_hash hash subject code now) db d f =
      complete-IsFree hash subject code now db (ground (arith, d)) f
  perform-IsFree (logging_in transaction state provider verifier now) db d f =
      login-IsFree _ _ state now db f
  perform-IsFree (logged_in state provider now) db d f = logged_in-IsFree state provider now db f
  perform-IsFree (discarding hash) db d f = record {
    pending = All-delete _ (of_transaction hash) db.pending f.pending;
    codes = f.codes;
    access = f.access;
    refresh = f.refresh;
  }
  perform-IsFree (exchanging client code s now) db d f =
      exchange-IsFree client code s now db (ground (arith, d)) (ground (arith, d)) f
  perform-IsFree (refreshing client token scopes s now) db d f =
      refresh-IsFree client token scopes s now db (ground (arith, d)) (ground (arith, d)) f
  perform-IsFree (revoking token) db d f = revoke-IsFree token db f

  -- hashes that are gone stay gone while the secrets of the calls have others
  pub run-IsFree :
      (calls : List Call) (db : Db)
      → All (λ call. draws_other platform m call ≡ true) calls
      → IsFree m db
      → IsFree m (run platform p calls db)
  unfolding run
  run-IsFree [] db d f = f
  run-IsFree (call ∷ calls) db d f =
      run-IsFree calls (perform platform p call db) d.1 (perform-IsFree call db d.0 f)
