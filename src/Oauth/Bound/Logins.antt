-- ===== src/Oauth/Bound/Logins.antt =====
-- Everything that a login or an authorization stores is bound to the provider.
use server_fs_mcp.Oauth.Tables.{Platform, PendingAuthorization, UpstreamLogin, Db}
use server_fs_mcp.Oauth.Provider.{Provider, authorize, or_supported, targets, is_empty}
use server_fs_mcp.Oauth.Logins.{
  complete_pending_authorization_hash, consume_upstream_login, create_pending_authorization,
  AuthorizationParams, login_for, of_transaction, login_of, of_login, pending_row, of_code,
  code_row,
}
use server_fs_mcp.Prelude.{
  Option, String, ℕ, List, Option-cases, some, Bool-cases, not, inl, leb, inr, ◌||◌, all, All, none,
  All-append, ◌∷◌, [], arith, refl,
}
use server_fs_mcp.Oauth.Bound.{IsBound, IsPendingBound, IsCodeBound}
use server_fs_mcp.Sql.{select_one, exists, delete}
use server_fs_mcp.Sql.Rows.{All-select_one, All-delete}
use server_fs_mcp.Oauth.Tokens.{scope_in}

module _ (platform : Platform) (p : Provider) where
  pub authorize-IsBound :
      (client : String) (params : AuthorizationParams) (transaction : String) (now : ℕ) (db : Db)
      → IsBound p db
      → IsBound p (authorize platform p client params transaction now db).1
  unfolding authorize create_pending_authorization
  authorize-IsBound client params transaction now db b =
      elim (Bool-cases (not (targets params.resource p.resource_url))) [
        | inl off ↦ rw off b
        | inr on ↦
            elim (Bool-cases (is_empty scopes || not (all (scope_in p.supported_scopes) scopes))) [
              | inl outside ↦ rw (on, outside) b
              | inr within ↦
                  elim (Bool-cases
                    (exists (of_transaction (platform.digest transaction)) db.pending)) [
                      | inl clash ↦ rw (on, within, clash) b
                      | inr fresh ↦
                          rw (on, within, fresh)
                            (record {
                              pending =
                                  All-append (IsPendingBound p) db.pending
                                    (pending_row platform transaction client params scopes
                                        p.resource_url now
                                      ∷ [])
                                    b.pending
                                    (
                                      record { resource = refl; scopes = ground (arith, within) },
                                      tt,
                                    );
                              codes = b.codes;
                              access = b.access;
                              refresh = b.refresh;
                            })
                    ]
            ]
      ]
    where
      scopes : List String
      scopes = or_supported params.scopes p.supported_scopes

  pub complete-IsBound :
      (hash subject code : String) (now : ℕ) (db : Db)
      → IsBound p db
      → IsBound p (complete_pending_authorization_hash platform hash subject code now db).1
  unfolding complete_pending_authorization_hash
  complete-IsBound hash subject code now db b =
      elim (Option-cases (select_one (of_transaction hash) db.pending)) [
        | inl e ↦ rw (e, complete_pending_authorization_hash) b
        | inr (row, e) ↦
            let bound : IsPendingBound p row =
              All-select_one (IsPendingBound p) (of_transaction hash) db.pending row b.pending e in
            let left : All (IsPendingBound p) (delete (of_transaction hash) db.pending) =
              All-delete (IsPendingBound p) (of_transaction hash) db.pending b.pending in
            elim (Bool-cases (leb row.expires_at now)) [
              | inl late ↦
                  rw (e, complete_pending_authorization_hash, late)
                    (record {
                      pending = left;
                      codes = b.codes;
                      access = b.access;
                      refresh = b.refresh;
                    })
              | inr intime ↦ elim (Bool-cases (exists (of_code (platform.digest code)) db.codes)) [
                | inl clash ↦ rw (e, complete_pending_authorization_hash, intime, clash) b
                | inr fresh ↦
                    rw (e, complete_pending_authorization_hash, intime, fresh)
                      (record {
                        pending = left;
                        codes =
                            All-append (IsCodeBound p) db.codes
                              (code_row platform row code subject now ∷ []) b.codes
                              (record { resource = bound.resource; scopes = bound.scopes }, tt);
                        access = b.access;
                        refresh = b.refresh;
                      })
              ]
            ]
      ]

  pub login-IsBound :
      (row : Option PendingAuthorization) (new : UpstreamLogin) (state : String) (now : ℕ) (db : Db)
      → IsBound p db
      → IsBound p (login_for platform row new state now db).1
  login-IsBound none new state now db b = b
  login-IsBound (some row) new state now db b = elim (Bool-cases (leb row.expires_at now)) [
    | inl late ↦ rw late b
    | inr intime ↦ elim (Bool-cases (exists (of_login new.state_hash) db.logins)) [
      | inl clash ↦ rw (intime, clash) b
      | inr fresh ↦
          rw (intime, fresh)
            (record {
              pending = b.pending;
              codes = b.codes;
              access = b.access;
              refresh = b.refresh;
            })
    ]
  ]

  pub logged_in-IsBound :
      (state provider : String) (now : ℕ) (db : Db)
      → IsBound p db
      → IsBound p (consume_upstream_login platform state provider now db).1
  unfolding consume_upstream_login
  logged_in-IsBound state provider now db b =
      elim (Option-cases (select_one (login_of platform state provider) db.logins)) [
        | inl e ↦ rw e b
        | inr (row, e) ↦ elim (Bool-cases (leb row.expires_at now)) [
          | inl late ↦
              rw (e, late)
                (record {
                  pending = b.pending;
                  codes = b.codes;
                  access = b.access;
                  refresh = b.refresh;
                })
          | inr intime ↦
              rw (e, intime)
                (record {
                  pending = b.pending;
                  codes = b.codes;
                  access = b.access;
                  refresh = b.refresh;
                })
        ]
      ]
