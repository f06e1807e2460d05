-- ===== src/Mutations/Replace.antt =====
-- What a file is after it was replaced (mutations.py).
use server_fs_mcp.Prelude.{
  String, ◌∷◌, [], ◌==◌, some, ◌≡◌, refl, true, false, Bool-cases, Option-cases, inl, inr, ◌⊎◌, ap,
  sym, ◌∙◌, eq_refl, subst, eq_iff, ◌||◌, not,
}
use server_fs_mcp.Sql.{select_one, delete}
use server_fs_mcp.Mutations.Files.{
  Stat, Bytes, Node, regular, Entry, Dir, FileError, FileResult, done, failed, FileHost,
  Surroundings, is_named, stat_at, compute_revision, is_current, commit, rename_temp, replace_at,
  temp_entry, is_directory,
}

apart_sym : (a b : String) → a == b ≡ false → b == a ≡ false
apart_sym a b h = elim (Bool-cases (b == a)) [
  | inr e ↦ e
  | inl e ↦ cc (h, (eq_iff a b).1 (sym ((eq_iff b a).0 e)))
]

-- deleting other entries does not hide one
select_kept :
    (name other : String) (dir : Dir)
    → other == name ≡ false
    → select_one (is_named other) (delete (is_named name) dir) ≡ select_one (is_named other) dir
unfolding select_one delete
select_kept name other [] apart = refl
select_kept name other (e ∷ es) apart = elim (Bool-cases (e.name == name)) [
  | inr stays ↦ elim (Bool-cases (e.name == other)) [
    | inl hit ↦ rw (stays, hit) refl
    | inr miss ↦ rw (stays, miss) (select_kept name other es apart)
  ]
  | inl gone ↦
      let miss : e.name == other ≡ false =
        rw ((eq_iff e.name name).0 gone) (apart_sym other name apart) in
      rw (gone, miss) (select_kept name other es apart)
]

select_first :
    (name : String) (node : Node) (dir : Dir)
    → select_one (is_named name) (record { name = name; node = node } ∷ dir)
      ≡ some (record { name = name; node = node })
unfolding select_one
select_first name node dir = rw (eq_refl name) refl

select_past :
    (name other : String) (node : Node) (dir : Dir)
    → other == name ≡ false
    → select_one (is_named other) (record { name = name; node = node } ∷ dir)
      ≡ select_one (is_named other) dir
unfolding select_one
select_past name other node dir apart = rw (apart_sym other name apart) refl

pub FileResult-cases :
    {A : Type 0} (r : FileResult A) → ((a : A) × (r ≡ done a)) ⊎ ((e : FileError) × (r ≡ failed e))
FileResult-cases (done a) = inl (a, refl)
FileResult-cases (failed e) = inr (e, refl)

pub done-injective : {A : Type 0} (a b : A) → done a ≡ done b → a ≡ b
done-injective a b h = cc

module _ (host : FileHost) (around : Surroundings) where
  open host use {renamed}
  open around use {temp_name, outside, window}

  -- the directory `after` is what others made of `before`, with one file, of the revision, put in place
  -- of what had a name; in `before` the status of the name had the expected revision
  pub record IsReplaced (name expected revision : String) (data_ : Bytes) (before after : Dir)
      : Type 0 where
    pub last : (st : Stat) × (stat_at name before ≡ done st) × (is_current host st expected ≡ true)
    pub file :
        (st : Stat) × (select_one (is_named name) after
          ≡ some (record { name = name; node = regular st data_ }))
        × (compute_revision host st ≡ revision)
    pub others :
        (other : String)
        → other == name ≡ false
        → other == temp_name ≡ false
        → select_one (is_named other) after ≡ select_one (is_named other) (window before)

  pub commit-IsReplaced :
      (name expected revision : String) (dir after : Dir) (temp : Entry) (st : Stat) (data_ : Bytes)
      → select_one (is_named temp_name) (window dir) ≡ some temp
      → temp.node ≡ regular st data_
      → commit host around name expected dir ≡ (done revision, after)
      → IsReplaced name expected revision data_ dir after
  unfolding commit
  commit-IsReplaced name expected revision dir after temp st data_ found node h =
      elim (FileResult-cases (stat_at name dir)) [
        | inr (e, f) ↦ cc (rw (f, commit) at h)
        | inl (now, f) ↦ elim (Bool-cases (is_current host now expected)) [
          | inr stale ↦ cc (rw (f, stale, commit) at h)
          | inl current ↦
              elim (Bool-cases (is_directory name (window dir) || not around.writable)) [
                | inl refused ↦ cc (rw (f, current, found, node, refused, commit, rename_temp) at h)
                | inr allowed ↦
                    let done_with =
                      rw (f, current, found, node, allowed, commit, rename_temp) at h in
                    let here : Entry = record { name = name; node = regular (renamed st) data_ } in
                    let left : Dir =
                      here ∷ delete (is_named name) (delete (is_named temp_name) (window dir)) in
                    let same : left ≡ after = ap (λ r. r.1) done_with in
                    subst (IsReplaced name expected revision data_ dir) same (record {
                      last = (now, f, current);
                      file = (
                        renamed st,
                        select_first name (regular (renamed st) data_) _,
                        done-injective _ revision (ap (λ r. r.0) done_with),
                      );
                      others = λ other apart other_temp.
                          select_past name other (regular (renamed st) data_) _ apart
                          ∙ select_kept name other (delete (is_named temp_name) (window dir)) apart
                          ∙ select_kept temp_name other (window dir) other_temp;
                    })
              ]
        ]
      ]

  -- what others leave of the temporary file is published
  pub replace_at-IsReplaced :
      (name expected revision : String) (payload : Bytes) (dir after : Dir)
      → (select_one (is_named temp_name) (window (outside (temp_entry host around payload ∷ dir)))
          ≡ some (temp_entry host around payload))
      → replace_at host around name payload expected dir ≡ (done revision, after)
      → IsReplaced name expected revision payload
          (outside (temp_entry host around payload ∷ dir))
          after
  unfolding replace_at
  replace_at-IsReplaced name expected revision payload dir after kept h =
      elim (Bool-cases around.no_temp) [
        | inl e ↦ cc (simp e at h)
        | inr e ↦ elim (Option-cases around.unwritten) [
          | inr (c, f) ↦ cc (simp (e, f) at h)
          | inl f ↦
              commit-IsReplaced name expected revision
                (outside (temp_entry host around payload ∷ dir)) after
                (temp_entry host around payload) _ payload kept refl (simp (e, f) at h)
        ]
      ]
