-- ===== src/Sql/Keys.antt =====
-- Unique keys: a PRIMARY KEY, or a UNIQUE index, in which NULL differs from NULL.
use server_fs_mcp.Prelude.{
  ◌≡◌, refl, Bool, true, false, Option, none, some, List, [], ◌∷◌, ◌++◌, ◌||◌, ◌==◌, eq_iff, String,
  map, any, arith, All, ap, Bool-cases, inl, inr,
}
use mathlib.Core.Option.{some-injective}
use server_fs_mcp.Sql.{select_one, delete, exists}

abbrev pub matches : Option String → Option String → Bool
matches none k = false
matches (some j) none = false
matches (some j) (some k) = k == j

abbrev pub taken : Option String → List (Option String) → Bool
taken k ks = any (matches k) ks

-- no two keys of the list are one text
abbrev pub AreDistinct : List (Option String) → Type 0
AreDistinct [] = Unit
AreDistinct (k ∷ ks) = (taken k ks ≡ false) × AreDistinct ks

matches_comm : (j k : Option String) → matches j k ≡ matches k j
matches_comm none none = refl
matches_comm none (some k) = refl
matches_comm (some j) none = refl
matches_comm (some j) (some k) = ground (arith, eq_iff j k, eq_iff k j)

taken-append :
    (j k : Option String) (ks : List (Option String))
    → taken j (ks ++ k ∷ []) ≡ (taken j ks || matches j k)
taken-append j k [] = ground arith
taken-append j k (i ∷ ks) = ground (arith, taken-append j k ks)

pub AreDistinct-append :
    (k : Option String) (ks : List (Option String))
    → AreDistinct ks
    → taken k ks ≡ false
    → AreDistinct (ks ++ k ∷ [])
AreDistinct-append k [] d n = (refl, tt)
AreDistinct-append k (j ∷ ks) d n =
    ground (arith, taken-append j k ks, matches_comm j k, AreDistinct-append k ks d.1)

module _ {ℓ} {A : Type ℓ} (key : A → Option String) where
  pub map-append_one : (xs : List A) (x : A) → map key (xs ++ x ∷ []) ≡ map key xs ++ key x ∷ []
  map-append_one [] x = refl
  map-append_one (y ∷ ys) x = ap (λ (t : List (Option String)). key y ∷ t) (map-append_one ys x)

  taken-delete :
      (p : A → Bool) (k : Option String) (xs : List A)
      → taken k (map key xs) ≡ false
      → taken k (map key (delete p xs)) ≡ false
  unfolding delete
  taken-delete p k [] h = refl
  taken-delete p k (x ∷ xs) h = ground (arith, taken-delete p k xs)

  pub AreDistinct-delete :
      (p : A → Bool) (xs : List A) → AreDistinct (map key xs) → AreDistinct (map key (delete p xs))
  unfolding delete
  AreDistinct-delete p [] d = tt
  AreDistinct-delete p (x ∷ xs) d =
      ground (arith, taken-delete p (key x) xs d.0, AreDistinct-delete p xs d.1)

module _ {ℓ} {A : Type ℓ} (key : A → String) where
  abbrev key_of : A → Option String
  key_of x = some (key x)

  pub exists-taken :
      (k : String) (xs : List A) → exists (λ x. key x == k) xs ≡ taken (some k) (map key_of xs)
  unfolding exists
  exists-taken k [] = refl
  exists-taken k (x ∷ xs) = ground (arith, exists-taken k xs)

  pub none_left :
      (k : String) (y : A) (xs : List A)
      → taken (some k) (map key_of xs) ≡ false
      → All (λ x. key x == k ≡ true → x ≡ y) xs
  none_left k y [] h = tt
  none_left k y (x ∷ xs) h = (λ e. cc, none_left k y xs (ground arith))

  -- a row selected by its key is the only one with that key
  pub only_row :
      (k : String) (xs : List A) (y : A)
      → AreDistinct (map key_of xs)
      → select_one (λ x. key x == k) xs ≡ some y
      → All (λ x. key x == k ≡ true → x ≡ y) xs
  unfolding select_one
  only_row k [] y d e = tt
  only_row k (x ∷ xs) y d e = elim (Bool-cases (key x == k)) [
    | inl hit ↦
        let same : key x ≡ k = (eq_iff (key x) k).0 hit in
        (λ _. some-injective x y (rw hit at e), none_left k y xs (rw same at (d.0)))
    | inr miss ↦ (λ hit. cc, only_row k xs y d.1 (rw miss at e))
  ]
