-- ===== src/Paths/Reserved.antt =====
-- The reserved names in the deny rules, which listings and searches filter by.
use server_fs_mcp.Prelude.{
  [], ◌∷◌, String, Bool, ◌≡◌, List, true, any, map, Bool-cases, inl, inr, arith, refl,
}
use server_fs_mcp.Paths.Parts.{Host}
use server_fs_mcp.Paths.Policy.{
  is_reserved_path, DenyPolicy, is_denied, is_reserved_component, folded, denied_by,
}

any-map :
    (p : String → Bool) (f : String → String)
    → ((c : String) → p c ≡ true → p (f c) ≡ true)
    → (xs : List String) → any p xs ≡ true
    → any p (map f xs) ≡ true
any-map p f h [] k = k
any-map p f h (x ∷ xs) k = elim (Bool-cases (p x)) [
  | inl here ↦ rw (h x here) refl
  | inr later ↦ ground (arith, any-map p f h xs (ground (arith, later, k)))
]

folded-reserved :
    (host : Host) (policy : DenyPolicy)
    → ((c : String)
        → is_reserved_component c ≡ true
        → is_reserved_component (host.casefold c) ≡ true)
    → (c : String) → is_reserved_component c ≡ true
    → is_reserved_component (folded host policy c) ≡ true
folded-reserved host policy keeps c h = elim (Bool-cases policy.case_insensitive) [
  | inl folds ↦ rw folds (keeps c h)
  | inr exact ↦ rw exact h
]

-- Where the folding of case keeps reserved names reserved, the deny rules match every path with a
-- reserved name, whatever is configured.
pub reserved-is_denied :
    (host : Host) (policy : DenyPolicy) (parts : List String)
    → ((c : String)
        → is_reserved_component c ≡ true
        → is_reserved_component (host.casefold c) ≡ true)
    → is_reserved_path parts ≡ true
    → is_denied host policy parts ≡ true
unfolding is_reserved_path is_denied denied_by
reserved-is_denied host policy [] keeps h = cc h
reserved-is_denied host policy (p ∷ ps) keeps h =
    let k : any is_reserved_component (map (folded host policy) (p ∷ ps)) ≡ true =
      any-map is_reserved_component (folded host policy) (folded-reserved host policy keeps)
        (p ∷ ps) h in
    rw k refl
