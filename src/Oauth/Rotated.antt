-- ===== src/Oauth/Rotated.antt =====
-- A refresh token that was rotated is spent.
use mathlib.Core.Option.{some-injective}
use server_fs_mcp.Prelude.{
  Bool, Option, String, List, some, All, ◌≡◌, true, false, none, map, ℕ, ◌∷◌, [], Bool-cases,
  Option-cases, inl, inr, All-map, eq_refl, ◌==◌, ◌||◌, not, all, leb, ◌++◌, refl, eq_iff, sym,
  arith,
}
use server_fs_mcp.Oauth.Tables.{
  RefreshRow, Platform, Db, TokenPair, ok, PendingAuthorization, CodeRow, AccessRow,
}
use server_fs_mcp.Oauth.Bound.{Call, run}
use server_fs_mcp.Oauth.Spent.{mark_refresh, draws_other, unwatched, misses_of_none}
use server_fs_mcp.Oauth.Spent.Runs.{run-IsFree}
use server_fs_mcp.Oauth.Provider.{Provider}
use server_fs_mcp.Sql.{select_one, delete, exists}
use server_fs_mcp.Sql.Rows.{select_one-holds, All-select_one, select_one_of_misses}
use server_fs_mcp.Sql.Keys.{AreDistinct, none_left}
use server_fs_mcp.Oauth.Tokens.{
  rotate_refresh_token, Rotation, Secrets, of_access, of_refresh, refresh_pair, refresh_of,
  drop_pair, scope_in, seconds,
}
use server_fs_mcp.Oauth.Revoked.{covered-delete}

abbrev pub refresh_key : RefreshRow → Option String
refresh_key r = some r.token_hash

module _ {ℓ} {A : Type ℓ} (q : A → Bool) where
  missed-append :
      (xs : List A) (y : A)
      → select_one q xs ≡ none
      → q y ≡ false
      → select_one q (xs ++ y ∷ []) ≡ none
  unfolding select_one
  missed-append [] y e miss = rw miss refl
  missed-append (x ∷ xs) y e miss = ground (arith, missed-append xs y)

module _ {ℓ} {A : Type ℓ} (key : A → String) (q : A → Bool) (k : String) where
  -- a row selected by a test that includes its key is the only one with that key
  only_match :
      ((x : A) → q x ≡ true → key x == k ≡ true)
      → (xs : List A) (y : A) → AreDistinct (map (λ x. some (key x)) xs)
      → select_one q xs ≡ some y
      → All (λ x. key x == k ≡ true → x ≡ y) xs
  unfolding select_one
  only_match by_key [] y d e = tt
  only_match by_key (x ∷ xs) y d e = elim (Bool-cases (q x)) [
    | inl hit ↦
        let same : key x ≡ k = (eq_iff (key x) k).0 (by_key x hit) in
        (λ _. some-injective x y (rw hit at e), none_left key k y xs (rw same at (d.0)))
    | inr miss ↦
        let found : select_one q xs ≡ some y = rw miss at e in
        (
          λ hit.
              let same : key x ≡ k = (eq_iff (key x) k).0 hit in
              let holds : q y ≡ true = select_one-holds q xs y found in
              sym (
                All-select_one _ q xs y (none_left key k x xs (rw same at (d.0))) found
                  (by_key y holds)),
          only_match by_key xs y d.1 found,
        )
  ]

module _ (platform : Platform) where
  open platform use {digest}

  -- the rows of the token leave with the pair of the row that a client's refresh found
  dropped :
      (client token : String) (rows : List RefreshRow) (row : RefreshRow)
      → AreDistinct (map refresh_key rows)
      → select_one (refresh_of platform client token) rows ≡ some row
      → select_one (of_refresh (digest token)) (delete (refresh_pair row.pair_id) rows) ≡ none
  dropped client token rows row d e =
      let only : All (λ r. of_refresh (digest token) r ≡ true → r ≡ row) rows =
        only_match (λ (r : RefreshRow). r.token_hash) (refresh_of platform client token)
          (digest token) (λ r hit. ground arith) rows row d e in
      covered-delete (of_refresh (digest token)) (refresh_pair row.pair_id) rows (
        All-map (λ r. of_refresh (digest token) r ≡ true → r ≡ row)
          (λ r. of_refresh (digest token) r ≡ true → refresh_pair row.pair_id r ≡ true)
          (λ r same hit. rw (same hit) (eq_refl row.pair_id)) rows only)

  unknown_refresh :
      (r : Rotation) (token : String) (s : Secrets) (now : ℕ) (db : Db)
      → select_one (refresh_of platform r.client_id token) db.refresh ≡ none
      → rotate_refresh_token platform r token s now db ≡ (ok none, db)
  unfolding rotate_refresh_token
  unknown_refresh r token s now db e = rw e refl

  rotate-effect :
      (r : Rotation) (token : String) (s : Secrets) (now : ℕ) (db : Db) {pair : TokenPair}
      → AreDistinct (map refresh_key db.refresh)
      → (digest s.refresh_token == digest token) ≡ false
      → (rotate_refresh_token platform r token s now db).0 ≡ ok (some pair)
      → select_one
          (of_refresh (digest token))
          (rotate_refresh_token platform r token s now db).1.refresh
        ≡ none
  unfolding rotate_refresh_token
  rotate-effect r token s now db {pair} d fresh h =
      elim (Option-cases (select_one (refresh_of platform r.client_id token) db.refresh)) [
        | inl e ↦ cc (rw e at h)
        | inr (row, e) ↦
            elim (Bool-cases (
              leb row.expires_at (seconds platform now)
              || not (all (scope_in row.scopes) r.scopes))) [
                | inl bad ↦ cc (rw (e, bad) at h)
                | inr good ↦
                    elim (Bool-cases (
                      exists (of_access (digest s.access_token)) (drop_pair row.pair_id db).access
                      || exists (of_refresh (digest s.refresh_token))
                          (drop_pair row.pair_id db).refresh)) [
                            | inl clash ↦ cc (rw (e, good, clash) at h)
                            | inr free ↦
                                rw (e, good, free)
                                  (missed-append (of_refresh (digest token)) _ _
                                    (dropped r.client_id token db.refresh row d e) (rw fresh refl))
                          ]
              ]
      ]

  -- Where the hashes of refresh tokens are unique and the new refresh token has another hash, a
  -- refresh token that was rotated is refused from then on: after any calls of the provider, none of
  -- which draws a refresh token with the same hash, for any client and at any time, and that attempt
  -- changes nothing.
  pub rotate_once :
      (p : Provider) (r r' : Rotation) (token : String) (s s' : Secrets) (now now' : ℕ) (db : Db)
      (calls : List Call) {pair : TokenPair}
      → AreDistinct (map refresh_key db.refresh)
      → (digest s.refresh_token == digest token) ≡ false
      → (rotate_refresh_token platform r token s now db).0 ≡ ok (some pair)
      → All (λ call. draws_other platform (mark_refresh (digest token)) call ≡ true) calls
      → let after = run platform p calls (rotate_refresh_token platform r token s now db).1 in
        rotate_refresh_token platform r' token s' now' after ≡ (ok none, after)
  rotate_once p r r' token s s' now now' db calls d fresh h others =
      let hash = digest token in
      let first = (rotate_refresh_token platform r token s now db).1 in
      let gone : All (λ (x : RefreshRow). of_refresh hash x ≡ false) first.refresh =
        misses_of_none (of_refresh hash) first.refresh (rotate-effect r token s now db d fresh h) in
      let free = run-IsFree platform p (mark_refresh hash) calls first others (record {
        pending = unwatched (λ (x : PendingAuthorization). x.transaction_hash) first.pending;
        codes = unwatched (λ (x : CodeRow). x.code_hash) first.codes;
        access = unwatched (λ (x : AccessRow). x.token_hash) first.access;
        refresh = gone;
      }) in
      let after = run platform p calls first in
      let missed : All (λ x. refresh_of platform r'.client_id token x ≡ false) after.refresh =
        All-map (λ (x : RefreshRow). of_refresh hash x ≡ false)
          (λ x. refresh_of platform r'.client_id token x ≡ false) (λ x miss. ground (arith, miss))
          after.refresh free.refresh in
      unknown_refresh r' token s' now' after
        (select_one_of_misses (refresh_of platform r'.client_id token) after.refresh missed)
