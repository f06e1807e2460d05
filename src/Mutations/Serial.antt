-- ===== src/Mutations/Serial.antt =====
-- Two changes that name one revision, one after the other (mutations.py).
use server_fs_mcp.Prelude.{String, Option, ◌==◌, none, some, ◌≡◌, false, refl, sym}
use server_fs_mcp.Mutations.Files.{
  Stat, Dir, done, FileHost, Surroundings, FileError, is_current, stat_at,
}
use server_fs_mcp.Mutations.Steps.{IsRefused}
use server_fs_mcp.Mutations.Stale.{Conditional, perform, stale_change-IsRefused}
use server_fs_mcp.Mutations.Exclusive.{HasRevision}
use server_fs_mcp.Mutations.Left.{perform-HasRevision}

module _ (host : FileHost) where
  left_stale :
      (around : Surroundings) (name expected : String) (after : Dir) (left : Option String)
      → ((revision : String) → left ≡ some revision → revision == expected ≡ false)
      → HasRevision host around name after left
      → (st : Stat) → stat_at name after ≡ done st
      → is_current host st expected ≡ false
  unfolding stat_at
  left_stale around name expected after none fresh left st h =
      cc (rw (left.gone refl, stat_at) at h)
  left_stale around name expected after (some revision) fresh left st h =
      let (now, found, is_left) = left.here revision refl in
      let same : now ≡ st = cc in rw (sym same) (rw is_left (fresh revision refl))

  -- Of two changes of an entry that name the same revision, only one succeeds: when the first has
  -- succeeded and has not left that very revision, the second fails and leaves the directory as the
  -- first one left it. The changes may be of any two kinds, walk their own way and meet anything from
  -- the system around.
  pub only_one_commits :
      (around later : Surroundings) (walked walked_later : Option FileError)
      (name expected : String) (first second : Conditional) (dir after : Dir) (left : Option String)
      → perform host around walked name expected first dir ≡ (done left, after)
      → ((revision : String) → left ≡ some revision → revision == expected ≡ false)
      → IsRefused after (perform host later walked_later name expected second after)
  only_one_commits around later walked walked_later name expected first second dir after left h
        fresh =
      stale_change-IsRefused host later walked_later name expected second after (
        left_stale around name expected after left fresh
          (perform-HasRevision host around walked name expected first dir after left h))
