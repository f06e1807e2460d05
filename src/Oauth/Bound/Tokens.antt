-- ===== src/Oauth/Bound/Tokens.antt =====
-- The tokens that an exchange stores are bound to the provider.
use server_fs_mcp.Prelude.{
  List, String, all, ℕ, Option-cases, ◌≡◌, true, ◌==◌, ◌∷◌, false, Bool-cases, arith, inl, inr,
  refl, eq_iff, leb, [], not, ◌||◌, All-append,
}
use server_fs_mcp.Oauth.Tables.{Platform, Db, Reply, TokenPair, ok, err}
use server_fs_mcp.Oauth.Provider.{
  Provider, exchange_authorization_code, exchange_refresh_token, revoke_token, token_of,
  token_or_invalid, granted, rotation,
}
use server_fs_mcp.Oauth.Bound.{Within, IsBound, IsAccessBound, IsCodeBound, IsRefreshBound}
use server_fs_mcp.Oauth.Tokens.{
  Grant, scope_in, Secrets, drop_pair, to_option, refresh_of, of_access, access_pair,
  insert_token_pair, of_refresh, refresh_pair, seconds, access_row, rotated, refresh_row,
}
use server_fs_mcp.Sql.{delete, select_one, exists}
use server_fs_mcp.Sql.Rows.{All-delete, All-select_one}
use server_fs_mcp.Oauth.Logins.{
  of_code, code_of, consume_authorization_code, authorization_code_from_row,
}

scope_in-Within :
    (supported old : List String) (s : String)
    → Within supported old
    → scope_in old s ≡ true
    → scope_in supported s ≡ true
scope_in-Within supported [] s h k = cc
scope_in-Within supported (o ∷ old) s h k = elim (Bool-cases (s == o)) [
  | inl same ↦ rw ((eq_iff s o).0 same) (ground arith)
  | inr other ↦ scope_in-Within supported old s (ground arith) (rw other at k)
]

-- scopes that are among bound ones are bound
Within-trans :
    (supported old new : List String)
    → Within supported old
    → all (scope_in old) new ≡ true
    → Within supported new
Within-trans supported old [] h k = refl
Within-trans supported old (s ∷ new) h k =
    ground (arith, scope_in-Within supported old s h, Within-trans supported old new h)

module _ (platform : Platform) (p : Provider) where
  pub drop_pair-IsBound : (pair : String) (db : Db) → IsBound p db → IsBound p (drop_pair pair db)
  drop_pair-IsBound pair db b = record {
    pending = b.pending;
    codes = b.codes;
    access = All-delete (IsAccessBound p) (access_pair pair) db.access b.access;
    refresh = All-delete (IsRefreshBound p) (refresh_pair pair) db.refresh b.refresh;
  }

  pub insert-IsBound :
      (g : Grant) (s : Secrets) (now : ℕ) (before db : Db)
      → g.resource ≡ p.resource_url
      → Within p.supported_scopes g.scopes
      → (g.subject == "") ≡ false
      → g.issuer ≡ p.issuer_url
      → IsBound p before
      → IsBound p db
      → IsBound p (insert_token_pair platform g s now before db).1
  insert-IsBound g s now before db resource scopes subject issuer a b =
      elim (Bool-cases (
        exists (of_access (platform.digest s.access_token)) db.access
        || exists (of_refresh (platform.digest s.refresh_token)) db.refresh)) [
          | inl clash ↦ rw clash a
          | inr fresh ↦ rw fresh (record {
            pending = b.pending;
            codes = b.codes;
            access =
                All-append (IsAccessBound p) db.access (access_row platform g s now ∷ []) b.access (
                  record {
                    resource = resource;
                    scopes = scopes;
                    subject = subject;
                    issuer = issuer;
                  },
                  tt,
                );
            refresh =
                All-append (IsRefreshBound p) db.refresh (refresh_row platform g s now ∷ [])
                  b.refresh
                  (record { resource = resource; scopes = scopes; subject = subject }, tt);
          })
        ]

  pub consumed-IsBound :
      (code : String) (db : Db)
      → IsBound p db
      → IsBound p (record db { codes = delete (of_code (platform.digest code)) db.codes })
  consumed-IsBound code db b = record {
    pending = b.pending;
    codes = All-delete (IsCodeBound p) (of_code (platform.digest code)) db.codes b.codes;
    access = b.access;
    refresh = b.refresh;
  }

  pub state-token_of :
      (scopes : List String) (m : Reply TokenPair × Db) → (token_of platform p scopes m).1 ≡ m.1
  state-token_of scopes (ok pair, db) = refl
  state-token_of scopes (err e, db) = refl

  pub exchange-IsBound :
      (client code : String) (s : Secrets) (now : ℕ) (db : Db)
      → IsBound p db
      → IsBound p (exchange_authorization_code platform p client code s now db).1
  unfolding exchange_authorization_code
  exchange-IsBound client code s now db b =
      elim (Option-cases (select_one (code_of platform client code) db.codes)) [
        | inl e ↦ rw (e, consume_authorization_code) b
        | inr (row, e) ↦
            elim (Bool-cases (not (row.resource == p.resource_url) || row.subject == "")) [
              | inl bad ↦ rw (e, consume_authorization_code, bad) (consumed-IsBound code db b)
              | inr good ↦
                  let bound : IsCodeBound p row =
                    All-select_one (IsCodeBound p) (code_of platform client code) db.codes row
                      b.codes e in
                  rw (e, consume_authorization_code, good, state-token_of)
                    (insert-IsBound
                      (granted platform p client (authorization_code_from_row platform row code)) s
                      now _ _ refl bound.scopes (ground (arith, good)) refl
                      (consumed-IsBound code db b) (consumed-IsBound code db b))
            ]
      ]

  pub state-token_or_invalid :
      (scopes : List String) (m : Reply TokenPair × Db)
      → (token_or_invalid platform p scopes (to_option platform m)).1 ≡ m.1
  state-token_or_invalid scopes (ok pair, db) = refl
  state-token_or_invalid scopes (err e, db) = refl

  pub refresh-IsBound :
      (client token : String) (scopes : List String) (s : Secrets) (now : ℕ) (db : Db)
      → IsBound p db
      → IsBound p (exchange_refresh_token platform p client token scopes s now db).1
  unfolding exchange_refresh_token
  refresh-IsBound client token scopes s now db b =
      elim (Option-cases (select_one (refresh_of platform client token) db.refresh)) [
        | inl e ↦ rw e b
        | inr (row, e) ↦
            elim (Bool-cases (
              leb row.expires_at (seconds platform now)
              || not (all (scope_in row.scopes) scopes))) [
                | inl bad ↦ rw (e, bad) b
                | inr good ↦
                    let bound : IsRefreshBound p row =
                      All-select_one (IsRefreshBound p) (refresh_of platform client token)
                        db.refresh row b.refresh e in
                    rw (e, good, state-token_or_invalid)
                      (insert-IsBound (rotated platform (rotation platform p client scopes) row) s
                        now _ _ bound.resource
                        (Within-trans p.supported_scopes row.scopes scopes bound.scopes
                          (ground (arith, good)))
                        bound.subject refl b (drop_pair-IsBound row.pair_id db b))
              ]
      ]

  pub revoke-IsBound :
      (token : String) (db : Db) → IsBound p db → IsBound p (revoke_token platform p token db)
  unfolding revoke_token
  revoke-IsBound token db b =
      elim (Option-cases (select_one (of_access (platform.digest token)) db.access)) [
        | inr (row, e) ↦ rw e (drop_pair-IsBound row.pair_id db b)
        | inl e ↦ elim (Option-cases (select_one (of_refresh (platform.digest token)) db.refresh)) [
          | inr (row, f) ↦ rw (e, f) (drop_pair-IsBound row.pair_id db b)
          | inl f ↦ rw (e, f) b
        ]
      ]
