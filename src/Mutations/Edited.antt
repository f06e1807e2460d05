-- ===== src/Mutations/Edited.antt =====
-- What a file is after it was edited (mutations.py).
use server_fs_mcp.Prelude.{
  String, Bool, List, Option, ℕ, some, ◌≡◌, false, if◌then◌else◌, ltb, length, true, ◌++◌, ◌∷◌,
}
use server_fs_mcp.Mutations.Text.{TextEdit, decode_text, apply_edits, utf8_bom, ok}
use server_fs_mcp.Mutations.Files.{
  Stat, Bytes, Dir, done, FileHost, Surroundings, FileError, is_current, compute_revision,
  open_regular, temp_entry,
}
use server_fs_mcp.Mutations.Operations.{EditTextFileResult, check_replaced}
use server_fs_mcp.Mutations.Replace.{IsReplaced}

abbrev pub with_bom : Bool → Bytes → Bytes
with_bom has_bom body = if has_bom then utf8_bom ++ body else body

module _ (host : FileHost) (around : Surroundings) (walked : Option FileError) where
  -- the payload is the edits applied to what was read
  pub record IsEdit (expected : String) (edits : List TextEdit) (most : ℕ) (before : Stat)
      (content : Bytes) (payload : Bytes) : Type 0 where
    pub decoded : String × Bool
    pub edited : String
    pub body : Bytes
    pub same : is_current host ((around.read_all before content).1) expected ≡ true
    pub was : decode_text host.utf8 ((around.read_all before content).0) ≡ ok decoded
    pub applied : apply_edits (decoded.0) edits ≡ ok edited
    pub encoded : host.utf8.encode edited ≡ some body
    pub written : payload ≡ with_bom (decoded.1) body
    pub fits : ltb most (length payload) ≡ false

  -- the file `name` of `dir` was edited, and `after` is left
  pub record IsEdited (name expected : String) (edits : List TextEdit) (most : ℕ) (dir after : Dir)
      (result : EditTextFileResult) : Type 0 where
    pub before : Stat
    pub content : Bytes
    pub payload : Bytes
    pub opened : open_regular name dir ≡ done (before, content)
    pub checked : check_replaced host around walked expected before ≡ done tt
    pub edit : IsEdit expected edits most before content payload
    pub reported : result ≡ record {
      edits_applied = length edits;
      bytes_before = before.st_size;
      bytes_after = length payload;
      revision_before = compute_revision host before;
      revision = result.revision;
    }
    pub replaced :
        IsReplaced host around name expected result.revision payload
          (around.outside (temp_entry host around payload ∷ dir))
          after
