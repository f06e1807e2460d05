-- ===== src/Mutations/Files.antt =====
-- mutations.py: changes to one entry of a directory, under the lock of the process. The walk to the
-- directory is an argument, none where it reaches it; programs outside of the process may act before
-- a temporary file is published, and while a file is read.
use server_fs_mcp.Prelude.{
  String, Bool, List, Option, ℕ, if◌then◌else◌, ◌∷◌, ◌==◌, length, not, some, none, text_take,
  false, ◌||◌, true, [],
}
use Prim.Native.String
use server_fs_mcp.Sql.{select_one, delete, exists}
use server_fs_mcp.Mutations.Text.{Utf8, TextError, Outcome, ok, err}

pub record Stat : Type 0 where
  pub st_dev : ℕ
  pub st_ino : ℕ
  pub st_mode : ℕ
  pub st_uid : ℕ
  pub st_gid : ℕ
  pub st_size : ℕ
  pub st_mtime_ns : ℕ
  pub st_ctime_ns : ℕ
  pub st_nlink : ℕ

abbrev pub Bytes : Type 0
Bytes = List ℕ

-- a directory by the names of its entries; a link is not followed; every other object is special
pub data Node : Type 0 where
  regular : Stat → Bytes → Node
  directory : Stat → List String → Node
  symlink : Stat → Node
  special : Stat → Node

pub record Entry : Type 0 where
  pub name : String
  pub node : Node

abbrev pub Dir : Type 0
Dir = List Entry

pub data FileError : Type 0 where
  text_error : TextError → FileError
  parent_not_found path_already_exists not_a_file not_a_directory : FileError
  revision_conflict multiple_hardlinks file_changed_during_read directory_not_empty : FileError
  write_too_large file_not_found symlink_not_allowed : FileError
  special_file os_error : FileError

pub data FileResult {ℓ} (A : Type ℓ) : Type ℓ where
  done : A → FileResult A
  failed : FileError → FileResult A

abbrev pub Change : Type 0 → Type 0
Change A = Dir → FileResult A × Dir

-- str() of a number, SHA-256, UTF-8, and what the system gives: the status of a new file or directory,
-- and of a file after its link or rename
pub record FileHost : Type 0 where
  pub utf8 : Utf8
  pub str : ℕ → String
  pub sha256_hex : String → String
  pub new_stat : ℕ → Stat
  pub new_directory_stat : Stat
  pub linked : Stat → Stat
  pub renamed : Stat → Stat

-- What happens around one call: the name of the temporary file; the steps of publication that the
-- system refuses; whether it lets the names of the directory change; what reading a file gives, with
-- its status afterwards; what others do to the directory before the last check of the revision, and
-- what they do between that check and the change.
pub record Surroundings : Type 0 where
  pub temp_name : String
  pub no_temp : Bool
  pub unwritten : Option FileError
  pub writable : Bool
  pub read_all : Stat → Bytes → Bytes × Stat
  pub outside : Dir → Dir
  pub window : Dir → Dir

abbrev pub is_named : String → Entry → Bool
is_named name e = e.name == name

abbrev pub node_stat : Node → Stat
node_stat (regular st data_) = st
node_stat (directory st names) = st
node_stat (symlink st) = st
node_stat (special st) = st

abbrev pub unlink_at : String → Dir → Dir
unlink_at name dir = delete (is_named name) dir

abbrev pub then_try : {A B : Type 0} → FileResult A → (A → FileResult B) → FileResult B
then_try (done a) f = f a
then_try (failed e) f = failed e

abbrev pub of_text : {A : Type 0} → Outcome A → FileResult A
of_text (ok a) = done a
of_text (err e) = failed (text_error e)

-- stat_at
unfoldable pub stat_at : String → Dir → FileResult Stat
stat_at name dir = elim (select_one (is_named name) dir) [
  | none ↦ failed file_not_found
  | some e ↦ done (node_stat e.node)
]

abbrev pub as_file : Node → FileResult (Stat × Bytes)
as_file (regular st data_) = done (st, data_)
as_file (directory st names) = failed not_a_file
as_file (symlink st) = failed symlink_not_allowed
as_file (special st) = failed special_file

abbrev pub as_dir : Node → FileResult (Stat × List String)
as_dir (regular st data_) = failed not_a_directory
as_dir (directory st names) = done (st, names)
as_dir (symlink st) = failed symlink_not_allowed
as_dir (special st) = failed not_a_directory

-- _open_regular
unfoldable pub open_regular : String → Dir → FileResult (Stat × Bytes)
open_regular name dir = elim (select_one (is_named name) dir) [
  | none ↦ failed file_not_found
  | some e ↦ as_file e.node
]

-- open_dir_at
unfoldable pub open_dir : String → Dir → FileResult (Stat × List String)
open_dir name dir = elim (select_one (is_named name) dir) [
  | none ↦ failed file_not_found
  | some e ↦ as_dir e.node
]

-- rename does not put a file in the place of a directory
abbrev pub is_directory : String → Dir → Bool
unfolding select_one
is_directory name dir = elim (select_one (is_named name) dir) [
  | none ↦ false
  | some e ↦ elim e.node [ directory st names ↦ true | _ ↦ false ]
]

abbrev pub names_of : String → Dir → List String
unfolding select_one
names_of name dir = elim (select_one (is_named name) dir) [
  | none ↦ []
  | some e ↦ elim e.node [ directory st names ↦ names | _ ↦ [] ]
]

abbrev colon : String → String → String
colon a b = String.◌++◌ a (String.◌++◌ ":" b)

module _ (host : FileHost) where
  open host use {utf8, str, sha256_hex, new_stat, new_directory_stat, linked, renamed}

  unfoldable pub compute_revision : Stat → String
  unfolding text_take
  compute_revision st =
      let material = colon (str st.st_dev) (
        colon (str st.st_ino) (
          colon (str st.st_mode) (
            colon (str st.st_uid) (
              colon (str st.st_gid) (
                colon (str st.st_size) (
                  colon (str st.st_mtime_ns) (colon (str st.st_ctime_ns) (str st.st_nlink)))))))) in
      String.◌++◌ "v1:" (text_take 16 (sha256_hex material))

  abbrev pub is_current : Stat → String → Bool
  is_current st expected_revision = compute_revision st == expected_revision

  module _ (around : Surroundings) where
    open around use {temp_name, no_temp, unwritten, writable, read_all, outside, window}

    abbrev pub temp_entry : Bytes → Entry
    temp_entry data_ = record { name = temp_name; node = regular (new_stat (length data_)) data_ }

    -- `os.replace` of the temporary file, and the revision that it then has
    abbrev pub rename_temp : String → Change String
    unfolding compute_revision
    rename_temp name dir = elim (select_one (is_named temp_name) dir) [
      | none ↦ (failed file_not_found, dir)
      | some temp ↦ elim temp.node [
        | regular st data_ ↦
            if is_directory name dir || not writable
            then (failed os_error, unlink_at temp_name dir)
            else (
              done (compute_revision (renamed st)),
              record { name = name; node = regular (renamed st) data_ }
                  ∷ delete (is_named name) (unlink_at temp_name dir),
            )
        | _ ↦ (failed os_error, dir)
      ]
    ]

    -- the last part of `_replace_at`: the check, and the rename, before which others may act once more
    unfoldable pub commit : String → String → Change String
    unfolding stat_at compute_revision
    commit name expected_revision dir = elim (stat_at name dir) [
      | failed e ↦ (failed e, unlink_at temp_name dir)
      | done st ↦
          if not (is_current st expected_revision)
          then (failed revision_conflict, unlink_at temp_name dir)
          else rename_temp name (window dir)
    ]

    unfoldable pub replace_at : String → Bytes → String → Change String
    unfolding commit
    replace_at name payload expected_revision dir =
        if no_temp
        then (failed os_error, dir)
        else let written = temp_entry payload ∷ dir in
          elim unwritten [
            | some e ↦ (failed e, unlink_at temp_name written)
            | none ↦ commit name expected_revision (outside written)
          ]

    -- _publish_new_file
    unfoldable pub publish_new_file : String → Bytes → Change String
    unfolding compute_revision exists
    publish_new_file name data_ dir =
        if no_temp
        then (failed os_error, dir)
        else let written = temp_entry data_ ∷ dir in
          elim unwritten [
            | some e ↦ (failed e, unlink_at temp_name written)
            | none ↦ elim (select_one (is_named temp_name) (outside written)) [
              | none ↦ (failed file_not_found, outside written)
              | some temp ↦
                  if exists (is_named name) (outside written)
                  then (failed path_already_exists, unlink_at temp_name (outside written))
                  else elim temp.node [
                    | regular st data_ ↦ (
                      done (compute_revision (linked st)),
                      record { name = name; node = regular (linked st) data_ }
                          ∷ unlink_at temp_name (outside written),
                    )
                    | _ ↦ (failed os_error, outside written)
                  ]
            ]
          ]
