-- ===== src/Mutations/Operations.antt =====
-- mutations.py: the changes that clients ask for. The walk to the directory is an argument, none where
-- it reaches it.
use server_fs_mcp.Prelude.{
  String, Bool, List, Option, ℕ, if◌then◌else◌, ◌∷◌, [], ltb, length, not, some, none, ◌++◌, true,
  false, ◌||◌,
}
use server_fs_mcp.Sql.{delete, exists}
use server_fs_mcp.Mutations.Text.{
  TextEdit, encode_new_content, validate_edits, apply_edits, decode_text, utf8_bom,
}
use server_fs_mcp.Mutations.Files.{
  Stat, Bytes, directory, Dir, FileError, parent_not_found, path_already_exists, revision_conflict,
  multiple_hardlinks, file_changed_during_read, directory_not_empty, write_too_large,
  file_not_found, os_error, FileResult, done, failed, Change, FileHost, Surroundings, is_named,
  is_directory, names_of, then_try, of_text, stat_at, open_regular, open_dir, compute_revision,
  is_current, replace_at, publish_new_file,
}

-- the results, without the workdir and the path that they repeat, the digest of the data, and flags
-- that the operation fixes
pub record CreateTextFileResult : Type 0 where
  pub bytes_written : ℕ
  pub revision : String

pub record UploadBinaryFileResult : Type 0 where
  pub replaced : Bool
  pub bytes_written : ℕ
  pub revision_before : Option String
  pub revision : String

pub record EditTextFileResult : Type 0 where
  pub edits_applied : ℕ
  pub bytes_before : ℕ
  pub bytes_after : ℕ
  pub revision_before : String
  pub revision : String

pub record DeleteFileResult : Type 0 where
  pub bytes_deleted : ℕ
  pub revision_deleted : String

abbrev pub is_some_name : List String → Bool
is_some_name [] = false
is_some_name (n ∷ ns) = true

-- a walk that does not find a directory, as `create_…` reports it
abbrev pub parent_error : FileError → FileError
parent_error file_not_found = parent_not_found
parent_error e = e

abbrev pub on_done : {A B : Type 0} → FileResult A × Dir → (A → B) → FileResult B × Dir
on_done (done a, dir) f = (done (f a), dir)
on_done (failed e, dir) f = (failed e, dir)

-- how the walk to the directory goes, and then a change in it
abbrev pub walking : {A : Type 0} → Option FileError → Change A → Change A
walking none change dir = change dir
walking (some e) change dir = (failed e, dir)

-- a result of a check, and then a change
abbrev pub checking : {A B : Type 0} → FileResult A → (A → Change B) → Change B
checking (done a) change dir = change a dir
checking (failed e) change dir = (failed e, dir)

abbrev created_parent : Option FileError → Option FileError
created_parent none = none
created_parent (some e) = some (parent_error e)

module _ (host : FileHost) (around : Surroundings) (walked : Option FileError) where
  open host use {utf8, new_directory_stat}
  open around use {writable, read_all}

  unfoldable pub create_text_file : String → String → ℕ → Change CreateTextFileResult
  unfolding encode_new_content publish_new_file
  create_text_file name content max_write_bytes =
      checking (of_text (encode_new_content utf8 content max_write_bytes)) λ data_.
        walking (created_parent walked) λ dir.
          on_done (publish_new_file host around name data_ dir)
            λ revision. record { bytes_written = length data_; revision = revision }

  unfoldable pub create_binary_file : String → Bytes → ℕ → Change UploadBinaryFileResult
  unfolding publish_new_file
  create_binary_file name data_ max_binary_bytes dir =
      if ltb max_binary_bytes (length data_)
      then (failed write_too_large, dir)
      else walking (created_parent walked)
          (λ dir. on_done (publish_new_file host around name data_ dir) λ revision. record {
            replaced = false;
            bytes_written = length data_;
            revision_before = none;
            revision = revision;
          })
          dir

  -- the checks of an existing file before it is replaced
  unfoldable pub check_replaced : String → Stat → FileResult (Unit {0})
  unfolding compute_revision
  check_replaced expected_revision before =
      if not (is_current host before expected_revision)
      then failed revision_conflict
      else if ltb 1 before.st_nlink
      then failed multiple_hardlinks
      else done tt

  unfoldable pub replace_binary_file : String → Bytes → String → ℕ → Change UploadBinaryFileResult
  unfolding open_regular check_replaced replace_at compute_revision
  replace_binary_file name data_ expected_revision max_binary_bytes dir =
      if ltb max_binary_bytes (length data_)
      then (failed write_too_large, dir)
      else walking walked
          (λ dir.
            checking (open_regular name dir)
              (λ opened. checking (check_replaced expected_revision opened.0) λ u dir.
                on_done (replace_at host around name data_ expected_revision dir) λ revision.
                  record {
                    replaced = true;
                    bytes_written = length data_;
                    revision_before = some (compute_revision host opened.0);
                    revision = revision;
                  })
              dir)
          dir

  -- the new content of an edited file
  unfoldable pub edited_payload : String → List TextEdit → ℕ → Stat × Bytes → FileResult Bytes
  unfolding compute_revision decode_text apply_edits
  edited_payload expected_revision edits max_write_bytes (before, content) =
      if ltb max_write_bytes before.st_size
      then failed write_too_large
      else let (data_, after) = read_all before content in
        if ltb max_write_bytes (length data_)
        then failed write_too_large
        else if not (is_current host after expected_revision)
        then failed file_changed_during_read
        else then_try (of_text (decode_text utf8 data_)) λ decoded.
          then_try (of_text (apply_edits decoded.0 edits)) λ edited. elim (utf8.encode edited) [
            | none ↦ failed os_error
            | some body ↦
                let payload = if decoded.1 then utf8_bom ++ body else body in
                if ltb max_write_bytes (length payload)
                then failed write_too_large
                else done payload
          ]

  -- from the opened file
  unfoldable pub edit_open_file :
      String → String → List TextEdit → ℕ → Stat × Bytes → Change EditTextFileResult
  unfolding check_replaced edited_payload replace_at compute_revision
  edit_open_file name expected_revision edits max_write_bytes opened =
      checking (check_replaced expected_revision opened.0) λ u.
        checking (edited_payload expected_revision edits max_write_bytes opened) λ payload dir.
          on_done (replace_at host around name payload expected_revision dir) λ revision. record {
            edits_applied = length edits;
            bytes_before = opened.0.st_size;
            bytes_after = length payload;
            revision_before = compute_revision host opened.0;
            revision = revision;
          }

  unfoldable pub edit_text_file :
      String → String → List TextEdit → ℕ → ℕ → Change EditTextFileResult
  unfolding validate_edits open_regular edit_open_file
  edit_text_file name expected_revision edits max_write_bytes max_edits_per_call =
      checking (of_text (validate_edits utf8 edits max_write_bytes max_edits_per_call)) λ u.
        walking walked λ dir.
          checking (open_regular name dir)
            (edit_open_file name expected_revision edits max_write_bytes) dir

  -- os.unlink
  unfoldable pub unlink : String → Change (Unit {0})
  unfolding exists
  unlink name dir =
      if not (exists (is_named name) dir)
      then (failed file_not_found, dir)
      else if is_directory name dir || not writable
      then (failed os_error, dir)
      else (done tt, delete (is_named name) dir)

  -- os.rmdir
  unfoldable pub rmdir : String → Change (Unit {0})
  unfolding exists
  rmdir name dir =
      if not (exists (is_named name) dir)
      then (failed file_not_found, dir)
      else if not (is_directory name dir)
      then (failed os_error, dir)
      else if is_some_name (names_of name dir)
      then (failed directory_not_empty, dir)
      else if not writable
      then (failed os_error, dir)
      else (done tt, delete (is_named name) dir)

  -- the check of the name right before a deletion
  unfoldable pub check_name : String → String → Dir → FileResult (Unit {0})
  unfolding stat_at compute_revision
  check_name name expected_revision dir =
      then_try (stat_at name dir)
        λ st. if is_current host st expected_revision then done tt else failed revision_conflict

  unfoldable pub delete_file : String → String → Change DeleteFileResult
  unfolding open_regular check_name unlink compute_revision
  delete_file name expected_revision = walking walked λ dir.
      checking (open_regular name dir)
        (λ opened dir.
          if not (is_current host opened.0 expected_revision)
          then (failed revision_conflict, dir)
          else checking (check_name name expected_revision (around.outside dir))
              (λ u dir. on_done (unlink name (around.window dir)) λ u. record {
                bytes_deleted = opened.0.st_size;
                revision_deleted = compute_revision host opened.0;
              })
              (around.outside dir))
        dir

  unfoldable pub delete_directory : String → String → Change String
  unfolding open_dir check_name rmdir compute_revision
  delete_directory name expected_revision = walking walked λ dir.
      checking (open_dir name dir)
        (λ opened dir.
          if not (is_current host opened.0 expected_revision)
          then (failed revision_conflict, dir)
          else if is_some_name opened.1
          then (failed directory_not_empty, dir)
          else checking (check_name name expected_revision (around.outside dir))
              (λ u dir.
                on_done (rmdir name (around.window dir)) λ u. compute_revision host opened.0)
              (around.outside dir))
        dir

  unfoldable pub create_directory : String → Change String
  unfolding exists compute_revision
  create_directory name = walking (created_parent walked) λ dir.
      if exists (is_named name) dir
      then (failed path_already_exists, dir)
      else if not writable
      then (failed os_error, dir)
      else (
        done (compute_revision host new_directory_stat),
        record { name = name; node = directory new_directory_stat [] } ∷ dir,
      )
