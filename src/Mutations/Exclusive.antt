-- ===== src/Mutations/Exclusive.antt =====
-- Two changes that name one revision (mutations.py).
use server_fs_mcp.Prelude.{
  String, Option, none, some, ◌≡◌, refl, Bool-cases, true, Option-cases, inl, inr, ◌∙◌, ◌∷◌,
}
use server_fs_mcp.Sql.{select_one}
use server_fs_mcp.Mutations.Files.{
  Stat, Bytes, Dir, done, FileHost, Surroundings, is_current, Node, Entry, regular, directory,
  symlink, special, is_named, commit, rename_temp, replace_at, temp_entry, stat_at,
  compute_revision,
}
use server_fs_mcp.Mutations.Replace.{IsReplaced, commit-IsReplaced, FileResult-cases}

module _ (host : FileHost) (around : Surroundings) where
  -- what a change that names a revision leaves under the name
  pub record HasRevision (name : String) (after : Dir) (left : Option String) : Type 0 where
    pub gone : left ≡ none → select_one (is_named name) after ≡ none
    pub here :
        (revision : String)
        → left ≡ some revision
        → (st : Stat) × (stat_at name after ≡ done st) × (compute_revision host st ≡ revision)

  commit_checked :
      (name expected revision : String) (dir after : Dir)
      → commit host around name expected dir ≡ (done revision, after)
      → (now : Stat) × (stat_at name dir ≡ done now) × (is_current host now expected ≡ true)
  unfolding commit
  commit_checked name expected revision dir after h = elim (FileResult-cases (stat_at name dir)) [
    | inr (e, f) ↦ cc (rw (f, commit) at h)
    | inl (now, f) ↦ elim (Bool-cases (is_current host now expected)) [
      | inr stale ↦ cc (rw (f, stale, commit) at h)
      | inl current ↦ (now, f, current)
    ]
  ]

  committed_node :
      (name expected revision : String) (dir after : Dir) (temp : Entry) (n : Node)
      → select_one (is_named around.temp_name) (around.window dir) ≡ some temp
      → temp.node ≡ n
      → commit host around name expected dir ≡ (done revision, after)
      → (data_ : Bytes) × IsReplaced host around name expected revision data_ dir after
  unfolding commit
  committed_node name expected revision dir after temp (regular st data_) found k h = (
    data_,
    commit-IsReplaced host around name expected revision dir after temp st data_ found k h,
  )
  committed_node name expected revision dir after temp (directory st names) found k h =
      let (now, f, c) = commit_checked name expected revision dir after h in
      cc (rw (f, c, found, k, commit, rename_temp) at h)
  committed_node name expected revision dir after temp (symlink st) found k h =
      let (now, f, c) = commit_checked name expected revision dir after h in
      cc (rw (f, c, found, k, commit, rename_temp) at h)
  committed_node name expected revision dir after temp (special st) found k h =
      let (now, f, c) = commit_checked name expected revision dir after h in
      cc (rw (f, c, found, k, commit, rename_temp) at h)

  committed :
      (name expected revision : String) (dir after : Dir)
      → commit host around name expected dir ≡ (done revision, after)
      → (data_ : Bytes) × IsReplaced host around name expected revision data_ dir after
  unfolding commit
  committed name expected revision dir after h =
      elim (Option-cases (select_one (is_named around.temp_name) (around.window dir))) [
        | inl none_left ↦
            let (now, f, c) = commit_checked name expected revision dir after h in
            cc (rw (f, c, none_left, commit, rename_temp) at h)
        | inr (temp, found) ↦
            committed_node name expected revision dir after temp temp.node found refl h
      ]

  committed-HasRevision :
      (name expected revision : String) (dir after : Dir)
      → commit host around name expected dir ≡ (done revision, after)
      → HasRevision name after (some revision)
  unfolding stat_at
  committed-HasRevision name expected revision dir after h =
      let (data_, replaced) = committed name expected revision dir after h in
      let (st, found, is_left) = replaced.file in
      record { gone = λ e. cc e; here = λ r e. (st, rw (found, stat_at) refl, is_left ∙ cc e) }

  pub replaced-HasRevision :
      (name expected revision : String) (payload : Bytes) (dir after : Dir)
      → replace_at host around name payload expected dir ≡ (done revision, after)
      → HasRevision name after (some revision)
  unfolding replace_at
  replaced-HasRevision name expected revision payload dir after h =
      elim (Bool-cases around.no_temp) [
        | inl e ↦ cc (simp e at h)
        | inr e ↦ elim (Option-cases around.unwritten) [
          | inr (c, f) ↦ cc (simp (e, f) at h)
          | inl f ↦
              committed-HasRevision name expected revision
                (around.outside (temp_entry host around payload ∷ dir)) after (simp (e, f) at h)
        ]
      ]
