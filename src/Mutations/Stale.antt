-- ===== src/Mutations/Stale.antt =====
-- Changes that name a revision (mutations.py).
use server_fs_mcp.Prelude.{
  String, List, Option, ℕ, none, some, ◌≡◌, false, ltb, length, Bool-cases, inl, inr,
}
use server_fs_mcp.Mutations.Text.{TextEdit, validate_edits}
use server_fs_mcp.Mutations.Files.{
  Stat, Bytes, Dir, done, Change, FileHost, Surroundings, FileError, is_current, stat_at,
  open_regular, open_dir, revision_conflict, write_too_large, of_text,
}
use server_fs_mcp.Mutations.Operations.{
  edit_text_file, edit_open_file, replace_binary_file, delete_file, delete_directory, checking,
  on_done, check_replaced,
}
use server_fs_mcp.Mutations.Steps.{
  IsRefused, refused, checking-IsRefused, walking-IsRefused, on_done-IsRefused, open_regular-stat,
  open_dir-stat,
}

-- the changes of an entry that the client names the revision of
pub data Conditional : Type 0 where
  edit : List TextEdit → ℕ → ℕ → Conditional
  replace : Bytes → ℕ → Conditional
  remove_file : Conditional
  remove_directory : Conditional

module _ (host : FileHost) (around : Surroundings) (walked : Option FileError) where
  -- one of the changes, with the revision that it leaves
  unfoldable pub perform : String → String → Conditional → Change (Option String)
  unfolding edit_text_file replace_binary_file delete_file delete_directory
  perform name expected (edit edits most most_edits) dir =
      on_done (edit_text_file host around walked name expected edits most most_edits dir)
        λ r. some r.revision
  perform name expected (replace data_ most) dir =
      on_done (replace_binary_file host around walked name data_ expected most dir)
        λ r. some r.revision
  perform name expected remove_file dir =
      on_done (delete_file host around walked name expected dir) λ r. none
  perform name expected remove_directory dir =
      on_done (delete_directory host around walked name expected dir) λ r. none

  -- no status that the name has is of the revision
  abbrev pub IsStale : String → String → Dir → Type 0
  IsStale name expected dir =
      (st : Stat) → stat_at name dir ≡ done st → is_current host st expected ≡ false

  check_replaced-IsRefused :
      {A : Type 0} (expected : String) (st : Stat) (f : Unit {0} → Change A) (dir : Dir)
      → is_current host st expected ≡ false
      → IsRefused dir (checking (check_replaced host around walked expected st) f dir)
  unfolding check_replaced
  check_replaced-IsRefused expected st f dir h =
      rw (h, check_replaced) (refused revision_conflict dir)

  stale_edit :
      (name expected : String) (edits : List TextEdit) (most most_edits : ℕ) (dir : Dir)
      → IsStale name expected dir
      → IsRefused dir (edit_text_file host around walked name expected edits most most_edits dir)
  unfolding edit_text_file edit_open_file
  stale_edit name expected edits most most_edits dir stale =
      checking-IsRefused (of_text (validate_edits host.utf8 edits most most_edits)) _ dir
        λ u checked. walking-IsRefused walked _ dir (
          checking-IsRefused (open_regular name dir) _ dir λ opened h.
            check_replaced-IsRefused expected (opened.0) _ dir
              (stale (opened.0) (open_regular-stat name dir opened h)))

  stale_replace :
      (name expected : String) (data_ : Bytes) (most : ℕ) (dir : Dir)
      → IsStale name expected dir
      → IsRefused dir (replace_binary_file host around walked name data_ expected most dir)
  unfolding replace_binary_file
  stale_replace name expected data_ most dir stale = elim (Bool-cases (ltb most (length data_))) [
    | inl large ↦ rw large (refused write_too_large dir)
    | inr fits ↦ rw fits (
        walking-IsRefused walked _ dir (
          checking-IsRefused (open_regular name dir) _ dir λ opened h.
            check_replaced-IsRefused expected (opened.0) _ dir
              (stale (opened.0) (open_regular-stat name dir opened h))))
  ]

  stale_delete_file :
      (name expected : String) (dir : Dir)
      → IsStale name expected dir
      → IsRefused dir (delete_file host around walked name expected dir)
  unfolding delete_file
  stale_delete_file name expected dir stale = walking-IsRefused walked _ dir (
      checking-IsRefused (open_regular name dir) _ dir λ opened h.
        rw (stale (opened.0) (open_regular-stat name dir opened h)) (refused revision_conflict dir))

  stale_delete_directory :
      (name expected : String) (dir : Dir)
      → IsStale name expected dir
      → IsRefused dir (delete_directory host around walked name expected dir)
  unfolding delete_directory
  stale_delete_directory name expected dir stale = walking-IsRefused walked _ dir (
      checking-IsRefused (open_dir name dir) _ dir λ opened h.
        rw (stale (opened.0) (open_dir-stat name dir opened h)) (refused revision_conflict dir))

  -- A change that names a revision which the entry does not have, or an entry that is not there, fails
  -- and leaves the directory as it was, whatever the walk to it and the system around give.
  pub stale_change-IsRefused :
      (name expected : String) (change : Conditional) (dir : Dir)
      → IsStale name expected dir
      → IsRefused dir (perform name expected change dir)
  unfolding perform
  stale_change-IsRefused name expected (edit edits most most_edits) dir stale =
      on_done-IsRefused _ _ dir (stale_edit name expected edits most most_edits dir stale)
  stale_change-IsRefused name expected (replace data_ most) dir stale =
      on_done-IsRefused _ _ dir (stale_replace name expected data_ most dir stale)
  stale_change-IsRefused name expected remove_file dir stale =
      on_done-IsRefused _ _ dir (stale_delete_file name expected dir stale)
  stale_change-IsRefused name expected remove_directory dir stale =
      on_done-IsRefused _ _ dir (stale_delete_directory name expected dir stale)
