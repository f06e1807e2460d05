-- ===== src/Sql/Rows.antt =====
-- What a statement leaves true of the rows of a table.
use mathlib.Core.Option.{some-injective}
use server_fs_mcp.Prelude.{
  ◌+◌, ◌≡◌, refl, Bool, true, false, List, [], ◌∷◌, ◌++◌, ◌||◌, map, arith, All, is_some, some,
  if◌then◌else◌, Bool-cases, inl, ap, sym, ◌∙◌, inr, none,
}
use server_fs_mcp.Sql.{select_one, count, update, delete, exists}

module _ {ℓ κ} {A : Type ℓ} (P : A → Type κ) (p : A → Bool) where
  pub All-select_one : (xs : List A) (x : A) → All P xs → select_one p xs ≡ some x → P x
  unfolding select_one
  All-select_one [] x h e = cc
  All-select_one (y ∷ ys) x h e = ground (arith, All-select_one ys x h.1)

  pub All-delete : (xs : List A) → All P xs → All P (delete p xs)
  unfolding delete
  All-delete [] h = tt
  All-delete (x ∷ xs) h = ground (arith, All-delete xs h.1)

module _ {ℓ κ μ} {A : Type ℓ} (P : A → Type κ) (Q : A → Type μ) (p : A → Bool) (f : A → A) where
  pub All-update :
      ((x : A) → P x → p x ≡ true → Q (f x))
      → ((x : A) → P x → p x ≡ false → Q x)
      → (xs : List A) → All P xs
      → All Q (update p f xs)
  unfolding update
  All-update hit miss [] h = tt
  All-update hit miss (x ∷ xs) h = ground (arith, hit x h.0, miss x h.0, All-update hit miss xs h.1)

module _ {ℓ κ μ} {A : Type ℓ} (P : A → Type κ) (Q : A → Type μ) (p : A → Bool) where
  -- a row that is left has not met the condition
  pub All-delete_kept :
      ((x : A) → P x → p x ≡ false → Q x) → (xs : List A) → All P xs → All Q (delete p xs)
  unfolding delete
  All-delete_kept keep [] h = tt
  All-delete_kept keep (x ∷ xs) h = ground (arith, keep x h.0, All-delete_kept keep xs h.1)

module _ {ℓ} {A : Type ℓ} (p : A → Bool) where
  pub select_one-holds : (xs : List A) (x : A) → select_one p xs ≡ some x → p x ≡ true
  unfolding select_one
  select_one-holds [] x e = cc
  select_one-holds (y ∷ ys) x e = ground (arith, select_one-holds ys x)

  pub is_some-select_one : (xs : List A) → is_some (select_one p xs) ≡ exists p xs
  unfolding select_one exists
  is_some-select_one [] = refl
  is_some-select_one (x ∷ xs) = ground (arith, is_some-select_one xs)

  pub count-append : (xs ys : List A) → count p (xs ++ ys) ≡ count p xs + count p ys
  unfolding count
  count-append [] ys = omega arith
  count-append (x ∷ xs) ys = ground (arith, count-append xs ys)

  pub exists-append : (xs ys : List A) → exists p (xs ++ ys) ≡ (exists p xs || exists p ys)
  unfolding exists
  exists-append [] ys = refl
  exists-append (x ∷ xs) ys = ground (arith, exists-append xs ys)

  pub count_of_none : (xs : List A) → exists p xs ≡ false → count p xs ≡ 0
  unfolding exists count
  count_of_none [] h = refl
  count_of_none (x ∷ xs) h = ground (arith, count_of_none xs)

module _ {ℓ} {A : Type ℓ} (q p : A → Bool) (f : A → A) where
  -- an update that keeps what a condition reads
  pub exists-update :
      ((x : A) → q (f x) ≡ q x) → (xs : List A) → exists q (update p f xs) ≡ exists q xs
  unfolding exists update
  exists-update keep [] = refl
  exists-update keep (x ∷ xs) = ground (arith, keep x, exists-update keep xs)

  pub count-update :
      ((x : A) → q (f x) ≡ q x) → (xs : List A) → count q (update p f xs) ≡ count q xs
  unfolding count update
  count-update keep [] = refl
  count-update keep (x ∷ xs) = ground (arith, keep x, count-update keep xs)

module _ {ℓ κ} {A : Type ℓ} {B : Type κ} (key : A → B) (p : A → Bool) (f : A → A) where
  pub map-update :
      ((x : A) → key (f x) ≡ key x) → (xs : List A) → map key (update p f xs) ≡ map key xs
  unfolding update
  map-update keep [] = refl
  map-update keep (x ∷ xs) = ground (arith, keep x, map-update keep xs)

module _ {ℓ} {A : Type ℓ} (q p : A → Bool) where
  -- deleting rows that do not meet a condition
  pub count-delete :
      ((x : A) → q x ≡ true → p x ≡ false) → (xs : List A) → count q (delete p xs) ≡ count q xs
  unfolding count delete
  count-delete apart [] = refl
  count-delete apart (x ∷ xs) = ground (arith, apart x, count-delete apart xs)

  pub exists-delete :
      ((x : A) → q x ≡ true → p x ≡ false) → (xs : List A) → exists q (delete p xs) ≡ exists q xs
  unfolding exists delete
  exists-delete apart [] = refl
  exists-delete apart (x ∷ xs) = ground (arith, apart x, exists-delete apart xs)

module _ {ℓ κ μ ν} {A : Type ℓ} {B : Type κ} (P : B → Type μ) (Q : B → Type ν) (key : A → B) where
  pub All-map_delete :
      (gone : B → Bool)
      → ((b : B) → P b → gone b ≡ false → Q b)
      → (xs : List A) → All P (map key xs)
      → All Q (map key (delete (λ x. gone (key x)) xs))
  unfolding delete
  All-map_delete gone keep [] h = tt
  All-map_delete gone keep (x ∷ xs) h =
      ground (arith, keep (key x) h.0, All-map_delete gone keep xs h.1)

module _ {ℓ} {A : Type ℓ} (p q : A → Bool) where
  -- conditions that agree on every row
  pub update_agree :
      (f : A → A) (xs : List A) → All (λ x. p x ≡ q x) xs → update p f xs ≡ update q f xs
  unfolding update
  update_agree f [] h = refl
  update_agree f (x ∷ xs) h = ground (arith, h.0, update_agree f xs h.1)

module _ {ℓ} {A : Type ℓ} (p : A → Bool) where
  pub count_of_misses : (xs : List A) → All (λ x. p x ≡ false) xs → count p xs ≡ 0
  unfolding count
  count_of_misses [] h = refl
  count_of_misses (x ∷ xs) h = ground (arith, h.0, count_of_misses xs h.1)

module _ {ℓ} {A : Type ℓ} (q : A → Bool) where
  pub select_one-update :
      (p : A → Bool) (f : A → A)
      → ((x : A) → q (f x) ≡ q x)
      → (xs : List A) (y : A) → select_one q xs ≡ some y
      → select_one q (update p f xs) ≡ some (if p y then f y else y)
  unfolding select_one update
  select_one-update p f keep [] y e = cc
  select_one-update p f keep (x ∷ xs) y e = ground (arith, keep x, select_one-update p f keep xs y)

  pub select_one-append :
      (xs ys : List A) (y : A) → select_one q xs ≡ some y → select_one q (xs ++ ys) ≡ some y
  unfolding select_one
  select_one-append [] ys y e = cc
  select_one-append (x ∷ xs) ys y e = ground (arith, select_one-append xs ys y)

  pub select_one-delete :
      (p : A → Bool) (xs : List A) (y : A)
      → select_one q xs ≡ some y
      → p y ≡ false
      → select_one q (delete p xs) ≡ some y
  unfolding select_one delete
  select_one-delete p [] y e kept = cc
  select_one-delete p (x ∷ xs) y e kept = elim (Bool-cases (q x)) [
    | inl hit ↦
        let same : x ≡ y = some-injective x y (rw hit at e) in
        rw (same, kept, (ap q (sym same) ∙ hit))
    | inr miss ↦ elim (Bool-cases (p x)) [
      | inl gone ↦ rw gone (select_one-delete p xs y (rw miss at e) kept)
      | inr stays ↦ rw (stays, miss) (select_one-delete p xs y (rw miss at e) kept)
    ]
  ]

  pub select_one-delete_all :
      (p : A → Bool)
      → ((x : A) → q x ≡ true → p x ≡ true)
      → (xs : List A) → select_one q (delete p xs) ≡ none
  unfolding select_one delete
  select_one-delete_all p narrow [] = refl
  select_one-delete_all p narrow (x ∷ xs) =
      ground (arith, narrow x, select_one-delete_all p narrow xs)

  pub select_one_of_misses : (xs : List A) → All (λ x. q x ≡ false) xs → select_one q xs ≡ none
  unfolding select_one
  select_one_of_misses [] h = refl
  select_one_of_misses (x ∷ xs) h = ground (arith, h.0, select_one_of_misses xs h.1)

  -- a row that is added under a condition that none has met is the one selected
  pub select_one-append_new :
      (xs : List A) (y : A)
      → exists q xs ≡ false
      → q y ≡ true
      → select_one q (xs ++ y ∷ []) ≡ some y
  unfolding select_one exists
  select_one-append_new [] y fresh hit = rw hit
  select_one-append_new (x ∷ xs) y fresh hit = ground (arith, select_one-append_new xs y)
