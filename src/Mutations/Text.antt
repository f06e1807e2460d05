-- ===== src/Mutations/Text.antt =====
-- mutation_text.py: the checks and the application of edits, and the decoding of a file. UTF-8 and
-- the numbers of bytes that it takes are the record Utf8; an encoding is none for a text that has one
-- half of a surrogate pair.
use server_fs_mcp.Prelude.{zero, any_code, text_length, suc, ◌-◌}
use Prim.Native.String
use text.Mathlib.Text.{starts_with}
use server_fs_mcp.Prelude.{
  String, Bool, List, Option, ℕ, if◌then◌else◌, ◌∷◌, ◌||◌, [], nat_eq, ◌+◌, ltb, any, ◌==◌, ◌&&◌,
  length, not, some, none, false, true,
}

pub record Utf8 : Type 0 where
  pub encode : String → Option (List ℕ)
  pub decode : List ℕ → Option String

pub data TextError : Type 0 where
  edit_conflict too_many_edits binary_content write_too_large : TextError
  binary_file unsupported_text_encoding : TextError

pub data Outcome {ℓ} (A : Type ℓ) : Type ℓ where
  ok : A → Outcome A
  err : TextError → Outcome A

pub record TextEdit : Type 0 where
  pub old_text : String
  pub new_text : String
  pub expected_count : ℕ

abbrev pub then_do {ℓ κ} : {A : Type ℓ} {B : Type κ} → Outcome A → (A → Outcome B) → Outcome B
then_do (ok a) f = f a
then_do (err c) f = err c

-- "\x00" in text
abbrev pub has_nul : String → Bool
has_nul text = any_code (nat_eq 0) text

-- `text.count(old)` from a place on, the next `skip` characters being part of an occurrence; for an
-- `old` that is not empty
unfoldable pub count_from : String → ℕ → String → ℕ
unfolding text_length
count_from old skip String.[] = 0
count_from old (suc skip) (String.◌∷◌ c s) = count_from old skip s
count_from old zero (String.◌∷◌ c s) =
    let here : Bool = starts_with (String.◌∷◌ c s) old in
    let rest = count_from old (if here then text_length old - 1 else 0) s in
    if here then suc rest else rest

unfoldable pub count_text : String → String → ℕ
unfolding count_from text_length
count_text text old = if old == "" then suc (text_length text) else count_from old 0 text

-- `text.replace(old, new)` in the same way
unfoldable pub replace_from : String → String → ℕ → String → String
unfolding text_length
replace_from old new skip String.[] = ""
replace_from old new (suc skip) (String.◌∷◌ c s) = replace_from old new skip s
replace_from old new zero (String.◌∷◌ c s) =
    let here : Bool = starts_with (String.◌∷◌ c s) old in
    let rest = replace_from old new (if here then text_length old - 1 else 0) s in
    if here then String.◌++◌ new rest else String.◌∷◌ c rest

-- with an empty `old`, `new` is put before each character and at the end
unfoldable pub replace_gaps : String → String → String
replace_gaps new String.[] = new
replace_gaps new (String.◌∷◌ c s) = String.◌++◌ new (String.◌∷◌ c (replace_gaps new s))

unfoldable pub replace_text : String → String → String → String
unfolding replace_from replace_gaps
replace_text text old new = if old == "" then replace_gaps new text else replace_from old new 0 text

unfoldable pub apply_edits : String → List TextEdit → Outcome String
unfolding count_text replace_text
apply_edits text [] = ok text
apply_edits text (edit ∷ edits) =
    let rest = apply_edits (replace_text text edit.old_text edit.new_text) edits in
    if edit.old_text == "" && (not (text == "") || not (nat_eq edit.expected_count 1))
    then err edit_conflict
    else if not (nat_eq (count_text text edit.old_text) edit.expected_count)
    then err edit_conflict
    else rest

abbrev pub edit_has_nul : TextEdit → Bool
edit_has_nul edit = has_nul edit.old_text || has_nul edit.new_text

abbrev pub utf8_bom : List ℕ
utf8_bom = 239 ∷ 187 ∷ 191 ∷ []

-- `body.startswith(UTF8_BOM)` with what follows
abbrev pub after_bom : List ℕ → Option (List ℕ)
after_bom (a ∷ b ∷ c ∷ body) =
    if nat_eq a 239 && nat_eq b 187 && nat_eq c 191 then some body else none
after_bom _ = none

module _ (utf8 : Utf8) where
  open utf8 use {encode, decode}

  unfoldable pub utf8_size : String → Outcome ℕ
  utf8_size text = elim (encode text) [ none ↦ err binary_content | some data_ ↦ ok (length data_) ]

  unfoldable pub encode_new_content : String → ℕ → Outcome (List ℕ)
  encode_new_content content max_write_bytes =
      if has_nul content then err binary_content else elim (encode content) [
        | none ↦ err binary_content
        | some data_ ↦ if ltb max_write_bytes (length data_) then err write_too_large else ok data_
      ]

  -- sum(utf8_size(e.old_text) + utf8_size(e.new_text) for e in edits)
  unfoldable pub edits_size : List TextEdit → Outcome ℕ
  unfolding utf8_size
  edits_size [] = ok 0
  edits_size (edit ∷ edits) = then_do (utf8_size edit.old_text) λ a.
      then_do (utf8_size edit.new_text) λ b. then_do (edits_size edits) λ rest. ok (a + b + rest)

  unfoldable pub validate_edits : List TextEdit → ℕ → ℕ → Outcome (Unit {0})
  unfolding edits_size
  validate_edits [] max_write_bytes max_edits_per_call = err edit_conflict
  validate_edits (edit ∷ edits) max_write_bytes max_edits_per_call =
      if ltb max_edits_per_call (length (edit ∷ edits))
      then err too_many_edits
      else if any edit_has_nul (edit ∷ edits)
      then err binary_content
      else then_do (edits_size (edit ∷ edits))
          λ total. if ltb max_write_bytes total then err write_too_large else ok tt

  abbrev decode_body : List ℕ → Bool → Outcome (String × Bool)
  decode_body body has_bom = if any (nat_eq 0) body then err binary_file else elim (decode body) [
    | none ↦ err unsupported_text_encoding
    | some text ↦ ok (text, has_bom)
  ]

  unfoldable pub decode_text : List ℕ → Outcome (String × Bool)
  decode_text data_ = elim (after_bom data_) [
    | none ↦ decode_body data_ false
    | some body ↦ decode_body body true
  ]
