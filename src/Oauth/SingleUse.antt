-- ===== src/Oauth/SingleUse.antt =====
-- Authorization codes, login transactions and upstream logins are used once.
use mathlib.Core.Option.{some-injective}
use server_fs_mcp.Oauth.Tables.{
  Platform, Db, AuthorizationCode, CodeRow, CompletedAuthorization, UpstreamLoginTransaction, ok,
  err, invalid_grant, UpstreamLogin, PendingAuthorization, AccessRow, RefreshRow,
}
use server_fs_mcp.Oauth.Logins.{
  consume_authorization_code, load_authorization_code, code_of, of_code,
  complete_pending_authorization_hash, consume_upstream_login, authorization_code_from_row,
  of_transaction, of_login, login_of,
}
use server_fs_mcp.Prelude.{
  String, ◌≡◌, some, none, Option-cases, inl, inr, true, ℕ, arith, sym, Bool-cases, leb, ◌==◌, not,
  ◌||◌, eq_iff, ap, ◌∙◌, List, All, All-map, false,
}
use server_fs_mcp.Sql.{select_one, delete, exists}
use server_fs_mcp.Oauth.Bound.{Call, run}
use server_fs_mcp.Oauth.Spent.{
  IsFree, mark_code, mark_transaction, draws_other, unwatched, misses-delete,
}
use server_fs_mcp.Oauth.Spent.Runs.{run-IsFree}
use server_fs_mcp.Sql.Rows.{select_one-delete_all, select_one-holds, select_one_of_misses}
use server_fs_mcp.Oauth.Provider.{exchange_authorization_code, Provider, OauthToken}
use server_fs_mcp.Oauth.Tokens.{Secrets, issue_token_pair, of_access, of_refresh}

module _ (platform : Platform) where
  open platform use {digest}

  -- what `consume_authorization_code` gives comes from a row of the client, and goes with it
  pub consume_code-effect :
      (client code : String) (db : Db) {c : AuthorizationCode}
      → (consume_authorization_code platform client code db).0 ≡ some c
      → (row : CodeRow) × (select_one (code_of platform client code) db.codes ≡ some row)
        × (c ≡ authorization_code_from_row platform row code)
        × ((consume_authorization_code platform client code db).1
            ≡ record db { codes = delete (of_code (digest code)) db.codes })
  unfolding consume_authorization_code
  consume_code-effect client code db {c} h =
      elim (Option-cases (select_one (code_of platform client code) db.codes)) [
        | inl e ↦ cc (rw (e, consume_authorization_code) at h)
        | inr (row, e) ↦ (
          row,
          e,
          sym (some-injective _ c (rw (e, consume_authorization_code) at h)),
          rw (e, consume_authorization_code),
        )
      ]

  unknown_code :
      (client code : String) (db : Db)
      → select_one (code_of platform client code) db.codes ≡ none
      → (load_authorization_code platform client code db ≡ none)
        × (consume_authorization_code platform client code db ≡ (none, db))
  unfolding consume_authorization_code load_authorization_code
  unknown_code client code db e =
      (rw (e, load_authorization_code), rw (e, consume_authorization_code))

  code_of-of_code :
      (client code : String) (r : CodeRow)
      → code_of platform client code r ≡ true
      → of_code (digest code) r ≡ true
  code_of-of_code client code r h = ground arith

  -- A code that was consumed can be neither loaded nor consumed again, by any client.
  pub consume_code_once :
      (client other code : String) (db : Db) {c : AuthorizationCode}
      → (consume_authorization_code platform client code db).0 ≡ some c
      → let after = (consume_authorization_code platform client code db).1 in
        (load_authorization_code platform other code after ≡ none)
        × (consume_authorization_code platform other code after ≡ (none, after))
  consume_code_once client other code db {c} h =
      let (row, _, _, e) = consume_code-effect client code db {c = c} h in
      unknown_code other code _ (
        rw e (
          select_one-delete_all (code_of platform other code) (of_code (digest code))
            (code_of-of_code other code) db.codes))

  unknown_exchange :
      (provider : Provider) (client code : String) (s : Secrets) (now : ℕ) (db : Db)
      → select_one (code_of platform client code) db.codes ≡ none
      → exchange_authorization_code platform provider client code s now db ≡ (err invalid_grant, db)
  unfolding exchange_authorization_code
  unknown_exchange provider client code s now db e = rw (unknown_code client code db e).1

  exchange-effect :
      (provider : Provider) (client code : String) (s : Secrets) (now : ℕ) (db : Db)
      {t : OauthToken}
      → (exchange_authorization_code platform provider client code s now db).0 ≡ ok t
      → (exchange_authorization_code platform provider client code s now db).1.codes
        ≡ delete (of_code (digest code)) db.codes
  unfolding exchange_authorization_code issue_token_pair
  exchange-effect provider client code s now db {t} h =
      elim (Option-cases (select_one (code_of platform client code) db.codes)) [
        | inl e ↦ cc (rw (e, consume_authorization_code) at h)
        | inr (row, e) ↦
            rw (e, consume_authorization_code)
              (elim (Bool-cases
                (not (row.resource == provider.resource_url) || row.subject == "")) [
                  | inl bad ↦ rw bad
                  | inr good ↦
                      elim (Bool-cases (
                        exists (of_access (digest s.access_token)) db.access
                        || exists (of_refresh (digest s.refresh_token)) db.refresh)) [
                          | inl clash ↦ rw (good, clash)
                          | inr fresh ↦ rw (good, fresh)
                        ]
                ])
      ]

  mark_code-IsFree :
      (code : String) (db : Db)
      → All (λ (r : CodeRow). of_code (digest code) r ≡ false) db.codes
      → IsFree (mark_code (digest code)) db
  mark_code-IsFree code db h = record {
    pending = unwatched (λ (r : PendingAuthorization). r.transaction_hash) db.pending;
    codes = h;
    access = unwatched (λ (r : AccessRow). r.token_hash) db.access;
    refresh = unwatched (λ (r : RefreshRow). r.token_hash) db.refresh;
  }

  no_code :
      (client code : String) (rows : List CodeRow)
      → All (λ (r : CodeRow). of_code (digest code) r ≡ false) rows
      → select_one (code_of platform client code) rows ≡ none
  no_code client code rows h = select_one_of_misses (code_of platform client code) rows (
      All-map (λ (r : CodeRow). of_code (digest code) r ≡ false)
        (λ r. code_of platform client code r ≡ false) (λ r miss. ground (arith, miss)) rows h)

  -- A code that a client exchanged for a token is refused as an invalid grant from then on: after any
  -- calls of the provider, none of which draws a code with the same hash, for any client and at any
  -- time, and that attempt changes nothing.
  pub exchange_code_once :
      (provider : Provider) (client other code : String) (s s' : Secrets) (now now' : ℕ) (db : Db)
      (calls : List Call) {t : OauthToken}
      → (exchange_authorization_code platform provider client code s now db).0 ≡ ok t
      → All (λ call. draws_other platform (mark_code (digest code)) call ≡ true) calls
      → let after =
          run platform provider calls
            (exchange_authorization_code platform provider client code s now db).1 in
        exchange_authorization_code platform provider other code s' now' after
        ≡ (err invalid_grant, after)
  exchange_code_once provider client other code s s' now now' db calls {t} h others =
      let first = (exchange_authorization_code platform provider client code s now db).1 in
      let gone : All (λ (r : CodeRow). of_code (digest code) r ≡ false) first.codes =
        rw (exchange-effect provider client code s now db {t = t} h)
          (misses-delete (of_code (digest code)) db.codes) in
      let free =
        run-IsFree platform provider (mark_code (digest code)) calls first others
          (mark_code-IsFree code first gone) in
      unknown_exchange provider other code s' now' _
        (no_code other code (run platform provider calls first).codes free.codes)

  unknown_transaction :
      (hash subject code : String) (now : ℕ) (db : Db)
      → select_one (of_transaction hash) db.pending ≡ none
      → complete_pending_authorization_hash platform hash subject code now db ≡ (ok none, db)
  unfolding complete_pending_authorization_hash
  unknown_transaction hash subject code now db e = rw (e, complete_pending_authorization_hash)

  complete-effect :
      (hash subject code : String) (now : ℕ) (db : Db) {a : CompletedAuthorization}
      → (complete_pending_authorization_hash platform hash subject code now db).0 ≡ ok (some a)
      → (complete_pending_authorization_hash platform hash subject code now db).1.pending
        ≡ delete (of_transaction hash) db.pending
  unfolding complete_pending_authorization_hash
  complete-effect hash subject code now db {a} h =
      elim (Option-cases (select_one (of_transaction hash) db.pending)) [
        | inl e ↦ cc (rw (e, complete_pending_authorization_hash) at h)
        | inr (row, e) ↦ elim (Bool-cases (leb row.expires_at now)) [
          | inl late ↦ cc (rw (e, complete_pending_authorization_hash, late) at h)
          | inr intime ↦ elim (Bool-cases (exists (of_code (digest code)) db.codes)) [
            | inl clash ↦ cc (rw (e, complete_pending_authorization_hash, intime, clash) at h)
            | inr fresh ↦ rw (e, complete_pending_authorization_hash, intime, fresh)
          ]
        ]
      ]

  mark_transaction-IsFree :
      (hash : String) (db : Db)
      → All (λ (r : PendingAuthorization). of_transaction hash r ≡ false) db.pending
      → IsFree (mark_transaction hash) db
  mark_transaction-IsFree hash db h = record {
    pending = h;
    codes = unwatched (λ (r : CodeRow). r.code_hash) db.codes;
    access = unwatched (λ (r : AccessRow). r.token_hash) db.access;
    refresh = unwatched (λ (r : RefreshRow). r.token_hash) db.refresh;
  }

  -- A login transaction completes at most once: after a completion and any calls of the provider, none
  -- of which draws a transaction with the same hash, the transaction completes to nothing, whatever the
  -- subject and the time, and changes nothing.
  pub complete_once :
      (provider : Provider) (hash subject subject' code code' : String) (now now' : ℕ) (db : Db)
      (calls : List Call) {a : CompletedAuthorization}
      → (complete_pending_authorization_hash platform hash subject code now db).0 ≡ ok (some a)
      → All (λ call. draws_other platform (mark_transaction hash) call ≡ true) calls
      → let after =
          run platform provider calls
            (complete_pending_authorization_hash platform hash subject code now db).1 in
        complete_pending_authorization_hash platform hash subject' code' now' after
        ≡ (ok none, after)
  complete_once provider hash subject subject' code code' now now' db calls {a} h others =
      let first = (complete_pending_authorization_hash platform hash subject code now db).1 in
      let gone : All (λ (r : PendingAuthorization). of_transaction hash r ≡ false) first.pending =
        rw (complete-effect hash subject code now db {a = a} h)
          (misses-delete (of_transaction hash) db.pending) in
      let free =
        run-IsFree platform provider (mark_transaction hash) calls first others
          (mark_transaction-IsFree hash first gone) in
      unknown_transaction hash subject' code' now' _ (
        select_one_of_misses (of_transaction hash) (run platform provider calls first).pending
          free.pending)

  unknown_login :
      (state provider : String) (now : ℕ) (db : Db)
      → select_one (login_of platform state provider) db.logins ≡ none
      → consume_upstream_login platform state provider now db ≡ (none, db)
  unfolding consume_upstream_login
  unknown_login state provider now db e = rw e

  login-effect :
      (state provider : String) (now : ℕ) (db : Db) {u : UpstreamLoginTransaction}
      → (consume_upstream_login platform state provider now db).0 ≡ some u
      → (u.provider ≡ provider)
        × ((consume_upstream_login platform state provider now db).1.logins
            ≡ delete (of_login (digest state)) db.logins)
  unfolding consume_upstream_login
  login-effect state provider now db {u} h =
      elim (Option-cases (select_one (login_of platform state provider) db.logins)) [
        | inl e ↦ cc (rw e at h)
        | inr (row, e) ↦ elim (Bool-cases (leb row.expires_at now)) [
          | inl late ↦ cc (rw (e, late) at h)
          | inr intime ↦
              let mine : row.provider ≡ provider = ground (
                arith,
                select_one-holds (login_of platform state provider) db.logins row e,
                eq_iff row.provider provider,
              ) in
              let given : some _ ≡ some u = rw (e, intime) at h in
              (
                ap (λ (v : UpstreamLoginTransaction). v.provider) (sym (some-injective _ u given))
                    ∙ mine,
                rw (e, intime),
              )
        ]
      ]

  login_of-of_login :
      (state provider : String) (u : UpstreamLogin)
      → login_of platform state provider u ≡ true
      → of_login (digest state) u ≡ true
  login_of-of_login state provider u h = ground arith

  -- An upstream login is consumed at most once, and only for the provider that it was created for.
  pub consume_login_once :
      (state provider provider' : String) (now now' : ℕ) (db : Db) {u : UpstreamLoginTransaction}
      → (consume_upstream_login platform state provider now db).0 ≡ some u
      → let after = (consume_upstream_login platform state provider now db).1 in
        (u.provider ≡ provider)
        × (consume_upstream_login platform state provider' now' after ≡ (none, after))
  consume_login_once state provider provider' now now' db {u} h =
      let (mine, gone) = login-effect state provider now db {u = u} h in
      (
        mine,
        unknown_login state provider' now' _ (
            rw gone (
              select_one-delete_all (login_of platform state provider') (of_login (digest state))
                (login_of-of_login state provider') db.logins)),
      )
