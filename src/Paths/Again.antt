-- ===== src/Paths/Again.antt =====
-- `resolve_workdir_path`: what it admits, and that its result is admitted again.
use text.Mathlib.Text.{starts_with}
use mathlib.Core.Path.{Path}
use mathlib.Core.List.{append-nil, append_assoc}
use text.Mathlib.TextEquality.{starts_with_iff}
use text.Mathlib.TextLemmas.{cons-append, nil-append}
use Prim.Native.Char.{Char, code}
use Prim.Native.String
use server_fs_mcp.Prelude.{
  [], ◌∷◌, String, Bool, List, ℕ, nat_eq, ◌≡◌, All, false, ap, ◌++◌, refl, not, ◌&&◌, any,
  Bool-cases, arith, sym, inl, inr, subst, some, ◌∙◌, true,
}
use server_fs_mcp.Paths.Parts.{
  Host, contains, join_from, take_segments, split, take_segment, Checked, ok, err,
  split_relative_path, join,
}
use Prim.Native.String.{same}
use server_fs_mcp.Paths.Policy.{
  DenyPolicy, ResolvedPath, admit, is_reserved_path, is_hidden_component, is_denied,
  resolve_workdir_path,
}
use server_fs_mcp.Paths.Safe.{IsName, split_relative_path-IsName}

slash_append : (t : String) → split (String.◌++◌ "/" t) ≡ "" ∷ split t
unfolding split
slash_append t = rw (cons-append, nil-append) refl

-- what a resolved path says of the parts and of the rules that it came from
abbrev pub IsAdmitted :
    (host : Host) {W : Type 0}
    → W
    → Bool
    → DenyPolicy
    → Checked (List String)
    → ResolvedPath host W
    → Type 0
IsAdmitted host workdir allow_hidden policy m r =
    (m ≡ ok r.rel_parts)
    × (is_reserved_path r.rel_parts ≡ false)
    × ((not allow_hidden && any is_hidden_component r.rel_parts) ≡ false)
    × (is_denied host policy r.rel_parts ≡ false)
    × (r.workdir ≡ workdir)
    × (r.allow_hidden ≡ allow_hidden)
    × (r.deny_policy ≡ policy)

module _ (host : Host) {W : Type 0} (workdir : W) (allow_hidden : Bool) (policy : DenyPolicy) where
  abbrev Resolves : Checked (List String) → Checked (ResolvedPath host W) → Type 0
  Resolves m (ok r) = IsAdmitted host workdir allow_hidden policy m r
  Resolves m (err e) = Unit

  admit-Resolves :
      (m : Checked (List String)) → Resolves m (admit host workdir allow_hidden policy m)
  admit-Resolves (err e) = tt
  admit-Resolves (ok parts) = elim (Bool-cases (is_reserved_path parts)) [
    | inl reserved ↦ rw reserved tt
    | inr open_name ↦ elim (Bool-cases (not allow_hidden && any is_hidden_component parts)) [
      | inl hidden ↦ rw (open_name, hidden) tt
      | inr seen ↦ elim (Bool-cases (is_denied host policy parts)) [
        | inl denied ↦ rw (open_name, seen, denied) tt
        | inr granted ↦
            rw (open_name, seen, granted) (refl, open_name, seen, granted, refl, refl, refl)
      ]
    ]
  ]

  admit_lem :
      (m : Checked (List String)) {r : ResolvedPath host W}
      → admit host workdir allow_hidden policy m ≡ ok r
      → IsAdmitted host workdir allow_hidden policy m r
  admit_lem m h = subst (Resolves m) h (admit-Resolves m)

split-append_slash :
    (p t : String)
    → contains b'/' p ≡ false
    → split (String.◌++◌ p (String.◌++◌ "/" t)) ≡ p ∷ split t
unfolding contains split
split-append_slash String.[] t h = rw nil-append (slash_append t)
split-append_slash (String.◌∷◌ c p) t h =
    let same : nat_eq (code c) b'/' ≡ false = ground (arith, h) in
    rw (cons-append, same, split-append_slash p t (ground (arith, h))) refl

split_name : (p : String) → contains b'/' p ≡ false → split p ≡ p ∷ []
unfolding contains split
split_name String.[] h = refl
split_name (String.◌∷◌ c p) h =
    let same : nat_eq (code c) b'/' ≡ false = ground (arith, h) in
    rw (same, split_name p (ground (arith, h))) refl

split-join_from :
    (p : String) (ps : List String) → IsName p → All IsName ps → split (join_from p ps) ≡ p ∷ ps
unfolding join_from
split-join_from p [] h k = split_name p h.no_slash
split-join_from p (q ∷ ps) h (k, ks) =
    rw (split-append_slash p (join_from q ps) h.no_slash)
      (ap (λ l. p ∷ l) (split-join_from q ps k ks))

take_segment_name :
    (parts : List String) (seg : String)
    → IsName seg
    → take_segment parts seg ≡ ok (parts ++ seg ∷ [])
unfolding take_segment
take_segment_name parts seg h = rw (h.filled, h.not_here, h.not_parent) refl

take_segments_names :
    (parts segs : List String) → All IsName segs → take_segments parts segs ≡ ok (parts ++ segs)
unfolding take_segments
take_segments_names parts [] h = ap ok (sym (append-nil parts))
take_segments_names parts (seg ∷ segs) (h, hs) =
    subst
      (λ m.
        Path (Checked (List String)) (elim m [ err e ↦ err e | ok left ↦ take_segments left segs ])
          (ok (parts ++ seg ∷ segs)))
      (sym (take_segment_name parts seg h))
      (take_segments_names (parts ++ seg ∷ []) segs hs ∙ ap ok (append_assoc parts (seg ∷ []) segs))

contains-append :
    (n : ℕ) (s t : String)
    → contains n s ≡ false
    → contains n t ≡ false
    → contains n (String.◌++◌ s t) ≡ false
unfolding contains
contains-append n String.[] t h k = rw nil-append k
contains-append n (String.◌∷◌ c s) t h k =
    let same : nat_eq (code c) n ≡ false = ground (arith, h) in
    rw (cons-append, same) (contains-append n s t (ground (arith, h)) k)

join_from-no_nul :
    (p : String) (ps : List String) → IsName p → All IsName ps → contains 0 (join_from p ps) ≡ false
unfolding join_from contains
join_from-no_nul p [] h k = h.no_nul
join_from-no_nul p (q ∷ ps) h (k, ks) =
    contains-append 0 p _ h.no_nul
      (contains-append 0 "/" (join_from q ps) refl (join_from-no_nul q ps k ks))

abbrev leads_slash : String → Bool
leads_slash String.[] = false
leads_slash (String.◌∷◌ c s) = nat_eq (code c) b'/'

slash-leads : (u : String) → leads_slash (String.◌++◌ "/" u) ≡ true
slash-leads u = rw cons-append refl

no_leading :
    (c : Char) (s : String)
    → nat_eq (code c) b'/' ≡ false
    → starts_with (String.◌∷◌ c s) "/" ≡ false
no_leading c s h = elim (Bool-cases (starts_with (String.◌∷◌ c s) "/")) [
  | inr other ↦ other
  | inl leads ↦
      let (u, e) = (starts_with_iff (String.◌∷◌ c s) "/").0 leads in
      cc (ap leads_slash e, slash-leads u, h)
]

join_from-no_slash :
    (p : String) (ps : List String) → IsName p → starts_with (join_from p ps) "/" ≡ false
unfolding join_from contains
join_from-no_slash String.[] ps h = cc h.filled
join_from-no_slash (String.◌∷◌ c p) [] h = no_leading c p (ground (arith, h.no_slash))
join_from-no_slash (String.◌∷◌ c p) (q ∷ ps) h =
    rw cons-append (no_leading c _ (ground (arith, h.no_slash)))

split-join :
    (host : Host) (parts : List String)
    → All IsName parts
    → host.is_absolute (join parts) ≡ false
    → starts_with (join parts) "~" ≡ false
    → split_relative_path host (join parts) ≡ ok parts
unfolding split_relative_path join
split-join host [] h absolute tilde = rw absolute refl
split-join host (p ∷ ps) (h, hs) absolute tilde =
    rw
      (
        join_from-no_nul p ps h hs,
        absolute,
        join_from-no_slash p ps h,
        tilde,
        split-join_from p ps h hs,
      )
      (take_segments_names [] (p ∷ ps) (h, hs))

-- The path text of an accepted path is accepted again, with the same result, unless it is an
-- absolute path of the host or starts with "~".
pub resolve_again :
    (host : Host) {W : Type 0} (workdir : W) (path : String) (allow_hidden : Bool)
    (policy : DenyPolicy) {r : ResolvedPath host W}
    → resolve_workdir_path host workdir path allow_hidden (some policy) ≡ ok r
    → host.is_absolute (join r.rel_parts) ≡ false
    → starts_with (join r.rel_parts) "~" ≡ false
    → resolve_workdir_path host workdir (join r.rel_parts) allow_hidden (some policy) ≡ ok r
unfolding resolve_workdir_path
resolve_again host workdir path allow_hidden policy {r = r} e absolute tilde =
    let first : split_relative_path host path ≡ ok r.rel_parts =
      (admit_lem host workdir allow_hidden policy (split_relative_path host path) e).0 in
    let again : split_relative_path host (join r.rel_parts) ≡ ok r.rel_parts =
      split-join host r.rel_parts (split_relative_path-IsName host path first) absolute tilde in
    subst (λ m. admit host workdir allow_hidden policy m ≡ ok r) (first ∙ sym again) e

-- An accepted path has the workdir and the rules it was checked under, its parts are names of
-- entries, none of them is reserved, none is hidden unless hidden ones are allowed, and the deny
-- rules do not match.
pub resolved_parts :
    (host : Host) {W : Type 0} (workdir : W) (path : String) (allow_hidden : Bool)
    (policy : DenyPolicy) {r : ResolvedPath host W}
    → resolve_workdir_path host workdir path allow_hidden (some policy) ≡ ok r
    → All IsName r.rel_parts
      × IsAdmitted host workdir allow_hidden policy (split_relative_path host path) r
unfolding resolve_workdir_path
resolved_parts host workdir path allow_hidden policy {r = r} e =
    let admitted : IsAdmitted host workdir allow_hidden policy (split_relative_path host path) r =
      admit_lem host workdir allow_hidden policy (split_relative_path host path) e in
    (split_relative_path-IsName host path admitted.0, admitted)
