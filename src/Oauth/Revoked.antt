-- ===== src/Oauth/Revoked.antt =====
-- A token that was revoked is dead.
use server_fs_mcp.Prelude.{
  Bool, Option, String, List, some, All, ◌≡◌, true, none, map, ℕ, ◌∷◌, Bool-cases, Option-cases,
  inl, inr, [], refl, All-map, eq_refl, false,
}
use server_fs_mcp.Oauth.Tables.{AccessRow, Platform, Db, PendingAuthorization, CodeRow, RefreshRow}
use server_fs_mcp.Sql.Rows.{select_one_of_misses}
use server_fs_mcp.Oauth.Bound.{Call, run}
use server_fs_mcp.Oauth.Spent.{mark_access, draws_other, unwatched, misses_of_none}
use server_fs_mcp.Oauth.Spent.Runs.{run-IsFree}
use server_fs_mcp.Sql.{select_one, delete}
use server_fs_mcp.Oauth.Tokens.{
  revoke_token_pair, introspect_access_token, load_access_token, of_access, access_pair, of_refresh,
}
use server_fs_mcp.Oauth.Provider.{revoke_token, Provider}
use server_fs_mcp.Sql.Keys.{AreDistinct, only_row}

module _ {ℓ} {A : Type ℓ} (q p : A → Bool) where
  pub covered-delete :
      (xs : List A) → All (λ x. q x ≡ true → p x ≡ true) xs → select_one q (delete p xs) ≡ none
  unfolding select_one delete
  covered-delete [] h = refl
  covered-delete (x ∷ xs) (h, hs) = elim (Bool-cases (p x)) [
    | inl gone ↦ rw gone (covered-delete xs hs)
    | inr kept ↦ elim (Bool-cases (q x)) [
      | inl hit ↦ cc (h hit, kept)
      | inr miss ↦ rw (kept, miss) (covered-delete xs hs)
    ]
  ]

  missed-delete : (xs : List A) → select_one q xs ≡ none → select_one q (delete p xs) ≡ none
  unfolding select_one delete
  missed-delete [] h = refl
  missed-delete (x ∷ xs) h = elim (Bool-cases (q x)) [
    | inl hit ↦ cc (rw hit at h)
    | inr miss ↦ elim (Bool-cases (p x)) [
      | inl gone ↦ rw gone (missed-delete xs (rw miss at h))
      | inr kept ↦ rw (kept, miss) (missed-delete xs (rw miss at h))
    ]
  ]

abbrev pub access_key : AccessRow → Option String
access_key a = some a.token_hash

module _ (platform : Platform) where
  revoked-access :
      (token : String) (db : Db)
      → AreDistinct (map access_key db.access)
      → select_one (of_access (platform.digest token)) (revoke_token_pair platform token db).access
        ≡ none
  unfolding revoke_token_pair
  revoked-access token db d = elim (Option-cases (select_one (of_access hash) db.access)) [
    | inr (row, e) ↦
        let only : All (λ a. of_access hash a ≡ true → a ≡ row) db.access =
          only_row (λ (a : AccessRow). a.token_hash) hash db.access row d e in
        rw e (
          covered-delete (of_access hash) (access_pair row.pair_id) db.access (
            All-map (λ a. of_access hash a ≡ true → a ≡ row)
              (λ a. of_access hash a ≡ true → access_pair row.pair_id a ≡ true)
              (λ a same hit. rw (same hit) (eq_refl row.pair_id)) db.access only))
    | inl e ↦ elim (Option-cases (select_one (of_refresh hash) db.refresh)) [
      | inr (row, f) ↦
          rw (e, f) (missed-delete (of_access hash) (access_pair row.pair_id) db.access e)
      | inl f ↦ rw (e, f) e
    ]
  ]
    where
      hash : String
      hash = platform.digest token

  unknown-access :
      (token : String) (now : ℕ) (db : Db)
      → select_one (of_access (platform.digest token)) db.access ≡ none
      → introspect_access_token platform token now db ≡ none
  unfolding introspect_access_token
  unknown-access token now db e = rw (e, load_access_token) refl

  -- Where the hashes of access tokens are unique, a token that was revoked is reported inactive from
  -- then on, after any calls of the provider, none of which draws an access token with the same hash.
  pub revoke_token_dead :
      (p : Provider) (token : String) (now : ℕ) (db : Db) (calls : List Call)
      → AreDistinct (map access_key db.access)
      → All (λ call. draws_other platform (mark_access (platform.digest token)) call ≡ true) calls
      → introspect_access_token platform token now
          (run platform p calls (revoke_token platform p token db))
        ≡ none
  unfolding revoke_token
  revoke_token_dead p token now db calls d others =
      let hash = platform.digest token in
      let first = revoke_token_pair platform token db in
      let gone : All (λ (a : AccessRow). of_access hash a ≡ false) first.access =
        misses_of_none (of_access hash) first.access (revoked-access token db d) in
      let free = run-IsFree platform p (mark_access hash) calls first others (record {
        pending = unwatched (λ (r : PendingAuthorization). r.transaction_hash) first.pending;
        codes = unwatched (λ (r : CodeRow). r.code_hash) first.codes;
        access = gone;
        refresh = unwatched (λ (r : RefreshRow). r.token_hash) first.refresh;
      }) in
      let after = run platform p calls first in
      unknown-access token now after
        (select_one_of_misses (of_access hash) after.access free.access)
