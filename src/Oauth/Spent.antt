-- ===== src/Oauth/Spent.antt =====
-- What is gone from the tables of the OAuth service stays gone, unless a call puts it there again
-- (auth_store.py, auth_provider.py).
pub mod Runs
use server_fs_mcp.Prelude.{
  Bool, String, List, ℕ, Option, ◌≡◌, ◌==◌, ◌||◌, ◌∷◌, ◌++◌, [], All, All-append, All-map, true,
  false, all, not, ◌&&◌, some, none, Bool-cases, Option-cases, inl, inr, leb, refl, arith,
}
use server_fs_mcp.Sql.{select_one, delete, exists}
use server_fs_mcp.Sql.Rows.{All-delete}
use server_fs_mcp.Oauth.Tables.{
  Platform, Db, PendingAuthorization, CodeRow, AccessRow, RefreshRow, UpstreamLogin,
}
use server_fs_mcp.Oauth.Logins.{
  AuthorizationParams, of_transaction, of_code, of_login, code_of, login_of, login_for, pending_row,
  code_row, create_pending_authorization, complete_pending_authorization_hash,
  complete_pending_authorization, create_upstream_login, consume_upstream_login,
  consume_authorization_code, discard_pending_authorization_hash, authorization_code_from_row,
}
use server_fs_mcp.Oauth.Tokens.{
  Grant, Secrets, insert_token_pair, drop_pair, access_row, refresh_row, access_pair, refresh_pair,
  of_access, of_refresh, refresh_of, scope_in, seconds, rotated,
}
use server_fs_mcp.Oauth.Provider.{
  Provider, authorize, complete_authorization, exchange_authorization_code, exchange_refresh_token,
  revoke_token, or_supported, targets, is_empty, granted, rotation,
}
use server_fs_mcp.Oauth.Bound.{
  Call, authorizing, completing, completing_hash, logging_in, logged_in, discarding, exchanging,
  refreshing, revoking, perform, run,
}
use server_fs_mcp.Oauth.Bound.Tokens.{state-token_of, state-token_or_invalid}

-- hashes that are watched, by table
pub record Marks : Type 0 where
  pub pending : String → Bool
  pub codes : String → Bool
  pub access : String → Bool
  pub refresh : String → Bool

abbrev nowhere : String → Bool
nowhere hash = false

abbrev pub mark_transaction : String → Marks
mark_transaction hash = record {
  pending = λ h. h == hash;
  codes = nowhere;
  access = nowhere;
  refresh = nowhere;
}

abbrev pub mark_code : String → Marks
mark_code hash = record {
  pending = nowhere;
  codes = λ h. h == hash;
  access = nowhere;
  refresh = nowhere;
}

abbrev pub mark_access : String → Marks
mark_access hash = record {
  pending = nowhere;
  codes = nowhere;
  access = λ h. h == hash;
  refresh = nowhere;
}

abbrev pub mark_refresh : String → Marks
mark_refresh hash = record {
  pending = nowhere;
  codes = nowhere;
  access = nowhere;
  refresh = λ h. h == hash;
}

-- no row has a hash that is watched
pub record IsFree (m : Marks) (db : Db) : Type 0 where
  pub pending : All (λ (r : PendingAuthorization). m.pending r.transaction_hash ≡ false) db.pending
  pub codes : All (λ (r : CodeRow). m.codes r.code_hash ≡ false) db.codes
  pub access : All (λ (r : AccessRow). m.access r.token_hash ≡ false) db.access
  pub refresh : All (λ (r : RefreshRow). m.refresh r.token_hash ≡ false) db.refresh

module _ {ℓ} {A : Type ℓ} (q : A → Bool) where
  pub misses_of_none : (xs : List A) → select_one q xs ≡ none → All (λ x. q x ≡ false) xs
  unfolding select_one
  misses_of_none [] h = tt
  misses_of_none (x ∷ xs) h = elim (Bool-cases (q x)) [
    | inl hit ↦ cc (rw hit at h)
    | inr miss ↦ (miss, misses_of_none xs (rw miss at h))
  ]

  pub misses-delete : (xs : List A) → All (λ x. q x ≡ false) (delete q xs)
  unfolding delete
  misses-delete [] = tt
  misses-delete (x ∷ xs) = elim (Bool-cases (q x)) [
    | inl gone ↦ rw gone (misses-delete xs)
    | inr kept ↦ rw kept (kept, misses-delete xs)
  ]

pub unwatched :
    {A : Type 0} (key : A → String) (xs : List A) → All (λ x. nowhere (key x) ≡ false) xs
unwatched key [] = tt
unwatched key (x ∷ xs) = (refl, unwatched key xs)

module _ (platform : Platform) where
  open platform use {digest}

  -- a secret that a call draws has no watched hash
  abbrev pub draws_other : Marks → Call → Bool
  draws_other m (authorizing client params transaction now) = not (m.pending (digest transaction))
  draws_other m (completing transaction subject code now) = not (m.codes (digest code))
  draws_other m (completing_hash hash subject code now) = not (m.codes (digest code))
  draws_other m (exchanging client code s now) =
      not (m.access (digest s.access_token)) && not (m.refresh (digest s.refresh_token))
  draws_other m (refreshing client token scopes s now) =
      not (m.access (digest s.access_token)) && not (m.refresh (digest s.refresh_token))
  draws_other m _ = true
