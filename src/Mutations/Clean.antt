-- ===== src/Mutations/Clean.antt =====
-- Edits that pass their checks make no text binary.
use Prim.Native.String
use text.Mathlib.Text.{starts_with}
use server_fs_mcp.Prelude.{
  zero, suc, [], ◌∷◌, true, false, any_code, String, ℕ, List, ◌≡◌, arith, Bool-cases, any, Bool,
  any_code_of_append, ◌==◌, if◌then◌else◌, nat_eq, inl, text_length, ◌∙◌, inr, ◌-◌, refl, ◌&&◌, not,
  ◌||◌, ltb, length,
}
use server_fs_mcp.Mutations.Text.{
  replace_from, replace_gaps, replace_text, apply_edits, has_nul, TextEdit, edit_has_nul, ok,
  validate_edits, Utf8, count_text,
}

replace_from-no_nul :
    (old new : String) (skip : ℕ) (text : String)
    → has_nul text ≡ false
    → has_nul new ≡ false
    → has_nul (replace_from old new skip text) ≡ false
unfolding replace_from any_code
replace_from-no_nul old new zero String.[] h k = refl
replace_from-no_nul old new (suc skip) String.[] h k = refl
replace_from-no_nul old new (suc skip) (String.◌∷◌ c s) h k =
    replace_from-no_nul old new skip s (ground arith) k
replace_from-no_nul old new zero (String.◌∷◌ c s) h k =
    let here = starts_with (String.◌∷◌ c s) old in
    let rest : String = replace_from old new (if here then text_length old - 1 else 0) s in
    let clean : has_nul rest ≡ false =
      replace_from-no_nul old new (if here then text_length old - 1 else 0) s (ground arith) k in
    put_no_nul here (String.◌++◌ new rest) (String.◌∷◌ c rest)
      (any_code_of_append (nat_eq 0) new rest ∙ rw (k, clean) refl) (ground (arith, clean))
  where
    put_no_nul :
        (b : Bool) (x y : String)
        → has_nul x ≡ false
        → has_nul y ≡ false
        → has_nul (if b then x else y) ≡ false
    put_no_nul true x y hx hy = hx
    put_no_nul false x y hx hy = hy

replace_gaps-no_nul :
    (new text : String)
    → has_nul text ≡ false
    → has_nul new ≡ false
    → has_nul (replace_gaps new text) ≡ false
unfolding replace_gaps any_code
replace_gaps-no_nul new String.[] h k = k
replace_gaps-no_nul new (String.◌∷◌ c s) h k =
    let clean = replace_gaps-no_nul new s (ground arith) k in
    any_code_of_append (nat_eq 0) new (String.◌∷◌ c (replace_gaps new s)) ∙ ground (arith, clean, k)

replace_text-no_nul :
    (text old new : String)
    → has_nul text ≡ false
    → has_nul new ≡ false
    → has_nul (replace_text text old new) ≡ false
unfolding replace_text
replace_text-no_nul text old new h k = elim (Bool-cases (old == "")) [
  | inl e ↦ rw e (replace_gaps-no_nul new text h k)
  | inr e ↦ rw e (replace_from-no_nul old new 0 text h k)
]

apply_edits-no_nul :
    (text result : String) (edits : List TextEdit)
    → has_nul text ≡ false
    → any edit_has_nul edits ≡ false
    → apply_edits text edits ≡ ok result
    → has_nul result ≡ false
unfolding apply_edits
apply_edits-no_nul text result [] h k e = cc (h, e)
apply_edits-no_nul text result (edit ∷ edits) h k e =
    let next : String = replace_text text edit.old_text edit.new_text in
    let bad : Bool =
      edit.old_text == "" && (not (text == "") || not (nat_eq edit.expected_count 1)) in
    elim (Bool-cases bad) [
      | inl b ↦ cc (rw b at e)
      | inr b ↦ elim (Bool-cases (nat_eq (count_text text edit.old_text) edit.expected_count)) [
        | inr other ↦ cc (rw (b, other) at e)
        | inl same ↦
            apply_edits-no_nul next result edits
              (replace_text-no_nul text edit.old_text edit.new_text h (ground arith)) (ground arith)
              (rw (b, same) at e)
      ]
    ]

-- Edits that pass `validate_edits` and apply turn a text without NUL into one without NUL.
pub edited_text_clean :
    (utf8 : Utf8) (text result : String) (edits : List TextEdit) (max_write_bytes max_edits : ℕ)
    → has_nul text ≡ false
    → validate_edits utf8 edits max_write_bytes max_edits ≡ ok tt
    → apply_edits text edits ≡ ok result
    → has_nul result ≡ false
unfolding validate_edits
edited_text_clean utf8 text result [] max_write_bytes max_edits h v e = cc v
edited_text_clean utf8 text result (edit ∷ edits) max_write_bytes max_edits h v e =
    elim (Bool-cases (ltb max_edits (length (edit ∷ edits)))) [
      | inl many ↦ cc (rw many at v)
      | inr few ↦ elim (Bool-cases (any edit_has_nul (edit ∷ edits))) [
        | inl nul ↦ cc (rw (few, nul) at v)
        | inr clean ↦ apply_edits-no_nul text result (edit ∷ edits) h clean e
      ]
    ]
