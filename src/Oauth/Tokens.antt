-- ===== src/Oauth/Tokens.antt =====
-- The methods of `OAuthStateStore` on access and refresh tokens, which are kept in pairs.
use server_fs_mcp.Prelude.{
  String, List, ℕ, Bool, Option, ◌==◌, any, ◌/◌, ◌+◌, ◌&&◌, some, if◌then◌else◌, none, leb, ◌||◌,
  not, ◌++◌, all, ◌∷◌, [],
}
use server_fs_mcp.Oauth.Tables.{
  Platform, AccessRow, RefreshRow, Db, Reply, TokenPair, RefreshToken, AccessToken, ok, err,
  integrity_error,
}
use server_fs_mcp.Sql.{delete, select_one, exists}

abbrev pub of_access : String → AccessRow → Bool
of_access hash a = a.token_hash == hash

abbrev pub of_refresh : String → RefreshRow → Bool
of_refresh hash r = r.token_hash == hash

abbrev pub access_pair : String → AccessRow → Bool
access_pair pair a = a.pair_id == pair

abbrev pub refresh_pair : String → RefreshRow → Bool
refresh_pair pair r = r.pair_id == pair

-- the arguments of `issue_token_pair`
pub record Grant : Type 0 where
  pub client_id : String
  pub scopes : List String
  pub resource : String
  pub subject : String
  pub issuer : String
  pub access_ttl_seconds : ℕ
  pub refresh_ttl_seconds : ℕ

-- what `secrets` gives for a pair
pub record Secrets : Type 0 where
  pub access_token : String
  pub refresh_token : String
  pub pair_id : String

-- the arguments of `rotate_refresh_token` beside the token
pub record Rotation : Type 0 where
  pub client_id : String
  pub scopes : List String
  pub issuer : String
  pub access_ttl_seconds : ℕ
  pub refresh_ttl_seconds : ℕ

-- scope in scopes
abbrev pub scope_in : List String → String → Bool
scope_in scopes s = any (λ t. s == t) scopes

-- DELETE FROM access_tokens and refresh_tokens WHERE pair_id = ?
abbrev pub drop_pair : String → Db → Db
drop_pair pair db = record db {
  access = delete (access_pair pair) db.access;
  refresh = delete (refresh_pair pair) db.refresh;
}

module _ (platform : Platform) where
  open platform use {digest, ticks_per_second}

  -- int(time.time())
  abbrev pub seconds : ℕ → ℕ
  seconds now = now / ticks_per_second

  abbrev pub access_row : Grant → Secrets → ℕ → AccessRow
  access_row g s now = record {
    token_hash = digest s.access_token;
    pair_id = s.pair_id;
    client_id = g.client_id;
    scopes = g.scopes;
    expires_at = seconds now + g.access_ttl_seconds;
    resource = g.resource;
    subject = g.subject;
    issuer = g.issuer;
  }

  abbrev pub refresh_row : Grant → Secrets → ℕ → RefreshRow
  refresh_row g s now = record {
    token_hash = digest s.refresh_token;
    pair_id = s.pair_id;
    client_id = g.client_id;
    scopes = g.scopes;
    expires_at = seconds now + g.refresh_ttl_seconds;
    resource = g.resource;
    subject = g.subject;
  }

  abbrev pub token_pair : Grant → Secrets → ℕ → TokenPair
  token_pair g s now = record {
    access_token = s.access_token;
    refresh_token = s.refresh_token;
    access_expires_at = seconds now + g.access_ttl_seconds;
    refresh_expires_at = seconds now + g.refresh_ttl_seconds;
  }

  -- in a transaction that began at `before`, to which a raise rolls back
  abbrev pub insert_token_pair : Grant → Secrets → ℕ → Db → Db → Reply TokenPair × Db
  insert_token_pair g s now before db =
      if exists (of_access (digest s.access_token)) db.access
        || exists (of_refresh (digest s.refresh_token)) db.refresh
      then (err integrity_error, before)
      else (
        ok (token_pair g s now),
        record db {
          access = db.access ++ access_row g s now ∷ [];
          refresh = db.refresh ++ refresh_row g s now ∷ [];
        },
      )

  unfoldable pub issue_token_pair : Grant → Secrets → ℕ → Db → Reply TokenPair × Db
  issue_token_pair g s now db = insert_token_pair g s now db db

  -- WHERE token_hash = ? AND client_id = ?
  abbrev pub refresh_of : String → String → RefreshRow → Bool
  refresh_of client_id token r = of_refresh (digest token) r && r.client_id == client_id

  unfoldable pub load_refresh_token : String → String → Db → Option RefreshToken
  load_refresh_token client_id token db =
      elim (select_one (refresh_of client_id token) db.refresh) [
        | none ↦ none
        | some row ↦ some (record {
          token = token;
          client_id = row.client_id;
          scopes = row.scopes;
          expires_at = row.expires_at;
          resource = row.resource;
          subject = row.subject;
        })
      ]

  abbrev pub rotated : Rotation → RefreshRow → Grant
  rotated r row = record {
    client_id = r.client_id;
    scopes = r.scopes;
    resource = row.resource;
    subject = row.subject;
    issuer = r.issuer;
    access_ttl_seconds = r.access_ttl_seconds;
    refresh_ttl_seconds = r.refresh_ttl_seconds;
  }

  abbrev pub to_option : Reply TokenPair × Db → Reply (Option TokenPair) × Db
  to_option (ok pair, db) = (ok (some pair), db)
  to_option (err e, db) = (err e, db)

  abbrev rotate_row :
      Option RefreshRow → Rotation → Secrets → ℕ → Db → Reply (Option TokenPair) × Db
  rotate_row none r s now db = (ok none, db)
  rotate_row (some row) r s now db =
      if leb row.expires_at (seconds now) || not (all (scope_in row.scopes) r.scopes)
      then (ok none, db)
      else to_option (insert_token_pair (rotated r row) s now db (drop_pair row.pair_id db))

  unfoldable pub rotate_refresh_token :
      Rotation → String → Secrets → ℕ → Db → Reply (Option TokenPair) × Db
  rotate_refresh_token r token s now db =
      rotate_row (select_one (refresh_of r.client_id token) db.refresh) r s now db

  unfoldable pub load_access_token : String → Db → Option AccessToken
  load_access_token token db = elim (select_one (of_access (digest token)) db.access) [
    | none ↦ none
    | some row ↦ some (record {
      token = token;
      client_id = row.client_id;
      scopes = row.scopes;
      expires_at = row.expires_at;
      resource = row.resource;
      subject = row.subject;
      issuer = row.issuer;
    })
  ]

  abbrev revoke_refresh : Option RefreshRow → Db → Db
  revoke_refresh none db = db
  revoke_refresh (some row) db = drop_pair row.pair_id db

  abbrev revoke_row : Option AccessRow → Option RefreshRow → Db → Db
  revoke_row (some row) other db = drop_pair row.pair_id db
  revoke_row none other db = revoke_refresh other db

  unfoldable pub revoke_token_pair : String → Db → Db
  revoke_token_pair token db =
      revoke_row (select_one (of_access (digest token)) db.access)
        (select_one (of_refresh (digest token)) db.refresh) db

  -- `none` is {"active": False}
  abbrev live_token : Option AccessToken → ℕ → Option AccessToken
  live_token none now = none
  live_token (some t) now = if leb t.expires_at (seconds now) then none else some t

  unfoldable pub introspect_access_token : String → ℕ → Db → Option AccessToken
  unfolding load_access_token
  introspect_access_token token now db = live_token (load_access_token token db) now
