-- ===== src/Tests/Mutations.antt =====
-- Edits of short texts.
use server_fs_mcp.Prelude.{[], ◌∷◌, false, List, any_code, some, ◌≡◌, refl}
use server_fs_mcp.Mutations.Text.{
  Utf8, apply_edits, count_text, replace_text, validate_edits, has_nul, TextEdit, ok, err,
  edit_conflict,
}
use server_fs_mcp.Mutations.Clean.{edited_text_clean}

abbrev one_byte : Utf8
one_byte = record { encode = λ s. some (1 ∷ []); decode = λ bytes. some "" }

abbrev edits : List TextEdit
edits =
    record { old_text = "ab"; new_text = "c"; expected_count = 2 }
    ∷ record { old_text = "cc"; new_text = "ab"; expected_count = 1 }
    ∷ []

edited : apply_edits "ababx" edits ≡ ok "abx"
unfolding apply_edits
edited = refl

overlapping : count_text "aaaaa" "aa" ≡ 2
unfolding count_text
overlapping = refl

gaps : replace_text "ab" "" "-" ≡ "-a-b-"
unfolding replace_text
gaps = refl

refused : apply_edits "ab" edits ≡ err edit_conflict
unfolding apply_edits
refused = refl

checked : validate_edits one_byte edits 10 2 ≡ ok tt
unfolding validate_edits any_code
checked = refl

without_nul : has_nul "ababx" ≡ false
unfolding any_code
without_nul = refl

edited_text_clean_example : has_nul "abx" ≡ false
edited_text_clean_example =
    edited_text_clean one_byte "ababx" "abx" edits 10 2 without_nul checked edited
