-- ===== src/Tests/Files.antt =====
-- Changes of a directory with one file.
use server_fs_mcp.Prelude.{
  String, List, ℕ, some, none, ◌≡◌, refl, false, true, ◌∷◌, [], nat_eq, if◌then◌else◌, subst,
  text_take, ◌==◌,
}
use server_fs_mcp.Sql.{select_one, delete}
use server_fs_mcp.Mutations.Text.{TextEdit}
use server_fs_mcp.Mutations.Files.{
  Stat, Dir, done, regular, FileHost, Surroundings, is_current, stat_at, compute_revision,
}
use server_fs_mcp.Mutations.Operations.{EditTextFileResult, replace_binary_file}
use server_fs_mcp.Mutations.Steps.{IsRefused}
use server_fs_mcp.Mutations.Replace.{done-injective}
use server_fs_mcp.Mutations.Stale.{replace, remove_file, perform, stale_change-IsRefused}
use server_fs_mcp.Mutations.Serial.{only_one_commits}

abbrev stat_of : ℕ → ℕ → Stat
stat_of ino size = record {
  st_dev = 0;
  st_ino = ino;
  st_mode = 0;
  st_uid = 0;
  st_gid = 0;
  st_size = size;
  st_mtime_ns = 0;
  st_ctime_ns = 0;
  st_nlink = 1;
}

abbrev host : FileHost
host = record {
  utf8 = record { encode = λ s. some (97 ∷ []); decode = λ b. some "ab" };
  str = λ n. if nat_eq n 0 then "0" else "1";
  sha256_hex = λ s. s;
  new_stat = stat_of 1;
  new_directory_stat = stat_of 2 0;
  linked = λ st. st;
  renamed = λ st. st;
}

abbrev around : Surroundings
around = record {
  temp_name = ".t";
  no_temp = false;
  unwritten = none;
  writable = true;
  read_all = λ st data_. (data_, st);
  outside = λ dir. dir;
  window = λ dir. dir;
}

abbrev dir : Dir
dir = record { name = "a"; node = regular (stat_of 0 2) (97 ∷ 98 ∷ []) } ∷ []

abbrev dir_after : Dir
dir_after = record { name = "a"; node = regular (stat_of 1 1) (99 ∷ []) } ∷ []

abbrev old_revision : String
old_revision = "v1:0:0:0:0:0:1:0:0:"

abbrev new_revision : String
new_revision = "v1:0:1:0:0:0:1:0:0:"

abbrev edits : List TextEdit
edits = record { old_text = "ab"; new_text = "c"; expected_count = 1 } ∷ []

abbrev edited : EditTextFileResult
edited = record {
  edits_applied = 1;
  bytes_before = 2;
  bytes_after = 1;
  revision_before = old_revision;
  revision = new_revision;
}

abbrev edited_dir : Dir
edited_dir = record { name = "a"; node = regular (stat_of 1 1) (97 ∷ []) } ∷ []

replaced :
    perform host around none "a" old_revision (replace (99 ∷ []) 9) dir
    ≡ (done (some new_revision), dir_after)
unfolding perform replace_binary_file compute_revision select_one delete
replaced = refl

stale_change-IsRefused_example : IsRefused dir (perform host around none "a" "v1:" remove_file dir)
unfolding stat_at compute_revision text_take select_one
stale_change-IsRefused_example =
    stale_change-IsRefused host around none "a" "v1:" remove_file dir
      λ st h. subst (λ s. is_current host s "v1:" ≡ false) (done-injective (stat_of 0 2) st h) refl

only_one_commits_example :
    IsRefused dir_after (perform host around none "a" old_revision remove_file dir_after)
only_one_commits_example =
    only_one_commits host around around none none "a" old_revision (replace (99 ∷ []) 9) remove_file
      dir dir_after (some new_revision) replaced
      λ r e. let same : new_revision ≡ r = cc e in subst (λ t. t == old_revision ≡ false) same refl
