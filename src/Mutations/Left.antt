-- ===== src/Mutations/Left.antt =====
-- What a change that names a revision leaves (mutations.py).
use server_fs_mcp.Prelude.{
  String, List, Option, ℕ, none, some, ◌≡◌, not, ltb, length, Bool-cases, ◌||◌, Option-cases, inl,
  inr, subst, sym, ap,
}
use server_fs_mcp.Sql.{select_one, delete, exists}
use server_fs_mcp.Sql.Rows.{select_one-delete_all}
use server_fs_mcp.Mutations.Text.{TextEdit, validate_edits}
use server_fs_mcp.Mutations.Files.{
  Stat, Bytes, Dir, done, FileHost, Surroundings, FileError, is_current, is_named, replace_at,
  open_regular, open_dir, of_text, is_directory, names_of,
}
use server_fs_mcp.Mutations.Operations.{
  edit_text_file, replace_binary_file, delete_file, delete_directory, check_replaced,
  edited_payload, unlink, rmdir, check_name, EditTextFileResult, edit_open_file,
  UploadBinaryFileResult, DeleteFileResult, is_some_name,
}
use server_fs_mcp.Mutations.Steps.{on_done-done}
use server_fs_mcp.Mutations.Replace.{FileResult-cases}
use server_fs_mcp.Mutations.Stale.{
  Conditional, edit, replace, remove_file, remove_directory, perform,
}
use server_fs_mcp.Mutations.Exclusive.{HasRevision, replaced-HasRevision}

module _ (host : FileHost) (around : Surroundings) (walked : Option FileError) where
  edit_open_file-HasRevision :
      (name expected : String) (edits : List TextEdit) (most : ℕ) (dir after : Dir)
      (result : EditTextFileResult) (opened : Stat × Bytes)
      → edit_open_file host around walked name expected edits most opened dir ≡ (done result, after)
      → HasRevision host around name after (some result.revision)
  unfolding edit_open_file
  edit_open_file-HasRevision name expected edits most dir after result opened h =
      elim (FileResult-cases (check_replaced host around walked expected (opened.0))) [
        | inr (e, c) ↦ cc (rw (c, edit_open_file) at h)
        | inl (u, c) ↦
            elim (FileResult-cases (edited_payload host around walked expected edits most opened)) [
              | inr (e, p) ↦ cc (rw (c, p, edit_open_file) at h)
              | inl (payload, p) ↦
                  let (revision, r, e) =
                    on_done-done (replace_at host around name payload expected dir) _ after result
                      (rw (c, p, edit_open_file) at h) in
                  let k : result.revision ≡ revision = ap EditTextFileResult.revision (sym e) in
                  replaced-HasRevision host around name expected result.revision payload dir after
                    (rw k r)
            ]
      ]

  edit_text_file-HasRevision :
      (name expected : String) (edits : List TextEdit) (most most_edits : ℕ) (dir after : Dir)
      (result : EditTextFileResult)
      → edit_text_file host around walked name expected edits most most_edits dir
        ≡ (done result, after)
      → HasRevision host around name after (some result.revision)
  unfolding edit_text_file
  edit_text_file-HasRevision name expected edits most most_edits dir after result h =
      elim (FileResult-cases (of_text (validate_edits host.utf8 edits most most_edits))) [
        | inr (e, v) ↦ cc (rw (v, edit_text_file) at h)
        | inl (u, v) ↦ elim (Option-cases walked) [
          | inr (e, w) ↦ cc (rw (v, w, edit_text_file) at h)
          | inl w ↦ elim (FileResult-cases (open_regular name dir)) [
            | inr (e, o) ↦ cc (rw (v, w, o, edit_text_file) at h)
            | inl (opened, o) ↦
                edit_open_file-HasRevision name expected edits most dir after result opened
                  (rw (v, w, o, edit_text_file) at h)
          ]
        ]
      ]

  replace_binary_file-HasRevision :
      (name expected : String) (data_ : Bytes) (most : ℕ) (dir after : Dir)
      (result : UploadBinaryFileResult)
      → replace_binary_file host around walked name data_ expected most dir ≡ (done result, after)
      → HasRevision host around name after (some result.revision)
  unfolding replace_binary_file
  replace_binary_file-HasRevision name expected data_ most dir after result h =
      elim (Bool-cases (ltb most (length data_))) [
        | inl large ↦ cc (rw (large, replace_binary_file) at h)
        | inr fits ↦ elim (Option-cases walked) [
          | inr (e, w) ↦ cc (rw (fits, w, replace_binary_file) at h)
          | inl w ↦ elim (FileResult-cases (open_regular name dir)) [
            | inr (e, o) ↦ cc (rw (fits, w, o, replace_binary_file) at h)
            | inl (opened, o) ↦
                elim (FileResult-cases (check_replaced host around walked expected (opened.0))) [
                  | inr (e, c) ↦ cc (rw (fits, w, o, c, replace_binary_file) at h)
                  | inl (u, c) ↦
                      let (revision, r, e) =
                        on_done-done (replace_at host around name data_ expected dir) _ after result
                          (rw (fits, w, o, c, replace_binary_file) at h) in
                      let k : result.revision ≡ revision =
                        ap UploadBinaryFileResult.revision (sym e) in
                      replaced-HasRevision host around name expected result.revision data_ dir after
                        (rw k r)
                ]
          ]
        ]
      ]

  no_entry :
      (name : String) (dir after : Dir)
      → delete (is_named name) dir ≡ after
      → HasRevision host around name after none
  no_entry name dir after k = record {
    gone = λ e.
        subst (λ d. select_one (is_named name) d ≡ none) k
          (select_one-delete_all (is_named name) (is_named name) (λ x. λ h. h) dir);
    here = λ r e. cc e;
  }

  unlinked :
      (name : String) (dir after : Dir) (u : Unit {0})
      → unlink host around walked name dir ≡ (done u, after)
      → delete (is_named name) dir ≡ after
  unfolding unlink
  unlinked name dir after u h = elim (Bool-cases (exists (is_named name) dir)) [
    | inr e ↦ cc (rw (e, unlink) at h)
    | inl e ↦ elim (Bool-cases (is_directory name dir || not around.writable)) [
      | inl f ↦ cc (rw (e, f, unlink) at h)
      | inr f ↦ ap (λ r. r.1) (rw (e, f, unlink) at h)
    ]
  ]

  rmdir_done :
      (name : String) (dir after : Dir) (u : Unit {0})
      → rmdir host around walked name dir ≡ (done u, after)
      → delete (is_named name) dir ≡ after
  unfolding rmdir
  rmdir_done name dir after u h = elim (Bool-cases (exists (is_named name) dir)) [
    | inr e ↦ cc (rw (e, rmdir) at h)
    | inl e ↦ elim (Bool-cases (is_directory name dir)) [
      | inr f ↦ cc (rw (e, f, rmdir) at h)
      | inl f ↦ elim (Bool-cases (is_some_name (names_of name dir))) [
        | inl n ↦ cc (rw (e, f, n, rmdir) at h)
        | inr n ↦ elim (Bool-cases around.writable) [
          | inr w ↦ cc (rw (e, f, n, w, rmdir) at h)
          | inl w ↦ ap (λ r. r.1) (rw (e, f, n, w, rmdir) at h)
        ]
      ]
    ]
  ]

  delete_file-HasRevision :
      (name expected : String) (dir after : Dir) (result : DeleteFileResult)
      → delete_file host around walked name expected dir ≡ (done result, after)
      → HasRevision host around name after none
  unfolding delete_file
  delete_file-HasRevision name expected dir after result h = elim (Option-cases walked) [
    | inr (e, w) ↦ cc (rw (w, delete_file) at h)
    | inl w ↦ elim (FileResult-cases (open_regular name dir)) [
      | inr (e, o) ↦ cc (rw (w, o, delete_file) at h)
      | inl (opened, o) ↦ elim (Bool-cases (is_current host (opened.0) expected)) [
        | inr c ↦ cc (rw (w, o, c, delete_file) at h)
        | inl c ↦
            elim (FileResult-cases
              (check_name host around walked name expected (around.outside dir))) [
                | inr (e, n) ↦ cc (rw (w, o, c, n, delete_file) at h)
                | inl (v, n) ↦
                    let (u, r, e) =
                      on_done-done
                        (unlink host around walked name (around.window (around.outside dir))) _
                        after result (rw (w, o, c, n, delete_file) at h) in
                    no_entry name (around.window (around.outside dir)) after
                      (unlinked name (around.window (around.outside dir)) after u r)
              ]
      ]
    ]
  ]

  delete_directory-HasRevision :
      (name expected : String) (dir after : Dir) (result : String)
      → delete_directory host around walked name expected dir ≡ (done result, after)
      → HasRevision host around name after none
  unfolding delete_directory
  delete_directory-HasRevision name expected dir after result h = elim (Option-cases walked) [
    | inr (e, w) ↦ cc (rw (w, delete_directory) at h)
    | inl w ↦ elim (FileResult-cases (open_dir name dir)) [
      | inr (e, o) ↦ cc (rw (w, o, delete_directory) at h)
      | inl (opened, o) ↦ elim (Bool-cases (is_current host (opened.0) expected)) [
        | inr c ↦ cc (rw (w, o, c, delete_directory) at h)
        | inl c ↦ elim (Bool-cases (is_some_name (opened.1))) [
          | inl s ↦ cc (rw (w, o, c, s, delete_directory) at h)
          | inr s ↦
              elim (FileResult-cases
                (check_name host around walked name expected (around.outside dir))) [
                  | inr (e, n) ↦ cc (rw (w, o, c, s, n, delete_directory) at h)
                  | inl (v, n) ↦
                      let (u, r, e) =
                        on_done-done
                          (rmdir host around walked name (around.window (around.outside dir))) _
                          after result (rw (w, o, c, s, n, delete_directory) at h) in
                      no_entry name (around.window (around.outside dir)) after
                        (rmdir_done name (around.window (around.outside dir)) after u r)
                ]
        ]
      ]
    ]
  ]

  pub perform-HasRevision :
      (name expected : String) (change : Conditional) (dir after : Dir) (left : Option String)
      → perform host around walked name expected change dir ≡ (done left, after)
      → HasRevision host around name after left
  unfolding perform
  perform-HasRevision name expected (edit edits most most_edits) dir after left h =
      let (result, r, e) =
        on_done-done (edit_text_file host around walked name expected edits most most_edits dir) _
          after left h in
      subst (HasRevision host around name after) e
        (edit_text_file-HasRevision name expected edits most most_edits dir after result r)
  perform-HasRevision name expected (replace data_ most) dir after left h =
      let (result, r, e) =
        on_done-done (replace_binary_file host around walked name data_ expected most dir) _ after
          left h in
      subst (HasRevision host around name after) e
        (replace_binary_file-HasRevision name expected data_ most dir after result r)
  perform-HasRevision name expected remove_file dir after left h =
      let (result, r, e) =
        on_done-done (delete_file host around walked name expected dir) _ after left h in
      subst (HasRevision host around name after) e
        (delete_file-HasRevision name expected dir after result r)
  perform-HasRevision name expected remove_directory dir after left h =
      let (result, r, e) =
        on_done-done (delete_directory host around walked name expected dir) _ after left h in
      subst (HasRevision host around name after) e
        (delete_directory-HasRevision name expected dir after result r)
