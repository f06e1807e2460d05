-- ===== src/Sql.antt =====
-- Tables as lists of rows in rowid order, and the statements that the two SQLite stores
-- (agent_bridge/src/serverfs_agent_bridge/store.py, src/serverfs_mcp/auth_store.py) run on them.
pub mod Rows
pub mod Keys
use server_fs_mcp.Prelude.{
  ℕ, suc, Bool, Option, none, some, List, [], ◌∷◌, ◌||◌, if◌then◌else◌, false,
}

module _ {ℓ} {A : Type ℓ} where
  -- SELECT … WHERE p, then fetchone()
  unfoldable pub select_one : (A → Bool) → List A → Option A
  select_one p [] = none
  select_one p (x ∷ xs) = if p x then some x else select_one p xs

  -- SELECT … WHERE p, then fetchall()
  unfoldable pub select_all : (A → Bool) → List A → List A
  select_all p [] = []
  select_all p (x ∷ xs) = let rest = select_all p xs in if p x then x ∷ rest else rest

  -- SELECT COUNT(*) … WHERE p, and the rowcount of an UPDATE or DELETE WHERE p
  unfoldable pub count : (A → Bool) → List A → ℕ
  count p [] = 0
  count p (x ∷ xs) = let rest = count p xs in if p x then suc rest else rest

  -- UPDATE … SET f WHERE p
  unfoldable pub update : (A → Bool) → (A → A) → List A → List A
  update p f [] = []
  update p f (x ∷ xs) = (if p x then f x else x) ∷ update p f xs

  -- DELETE … WHERE p
  unfoldable pub delete : (A → Bool) → List A → List A
  delete p [] = []
  delete p (x ∷ xs) = let rest = delete p xs in if p x then rest else x ∷ rest

  -- EXISTS(SELECT … WHERE p), which a key constraint tests before an INSERT
  unfoldable pub exists : (A → Bool) → List A → Bool
  exists p [] = false
  exists p (x ∷ xs) = p x || exists p xs
