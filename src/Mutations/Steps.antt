-- ===== src/Mutations/Steps.antt =====
-- How the steps of a change succeed and fail (mutations.py).
use server_fs_mcp.Prelude.{List, Option, ◌≡◌, refl, none, some, String, Option-cases, inl, inr, ap}
use server_fs_mcp.Sql.{select_one}
use server_fs_mcp.Mutations.Text.{Outcome, ok, err}
use server_fs_mcp.Mutations.Files.{
  Stat, Bytes, Dir, FileError, FileResult, done, failed, Change, is_named, then_try, of_text,
  stat_at, open_regular, open_dir, Node, as_file, as_dir, node_stat, regular, directory, symlink,
  special,
}
use server_fs_mcp.Mutations.Operations.{walking, checking, on_done}

-- a change that failed and left the directory as it was
pub record IsRefused {A : Type 0} (dir : Dir) (p : FileResult A × Dir) : Type 0 where
  pub error : FileError
  pub as_before : p ≡ (failed error, dir)

pub refused : {A : Type 0} (e : FileError) (dir : Dir) → IsRefused {A = A} dir (failed e, dir)
refused e dir = record { error = e; as_before = refl }

pub checking-IsRefused :
    {A B : Type 0} (r : FileResult A) (f : A → Change B) (dir : Dir)
    → ((a : A) → r ≡ done a → IsRefused dir (f a dir))
    → IsRefused dir (checking r f dir)
checking-IsRefused (done a) f dir h = h a refl
checking-IsRefused (failed e) f dir h = refused e dir

pub walking-IsRefused :
    {A : Type 0} (w : Option FileError) (change : Change A) (dir : Dir)
    → IsRefused dir (change dir)
    → IsRefused dir (walking w change dir)
walking-IsRefused none change dir h = h
walking-IsRefused (some e) change dir h = refused e dir

pub on_done-IsRefused :
    {A B : Type 0} (p : FileResult A × Dir) (f : A → B) (dir : Dir)
    → IsRefused dir p
    → IsRefused dir (on_done p f)
on_done-IsRefused (done a, left) f dir h = cc (h.as_before)
on_done-IsRefused (failed e, left) f dir h = record {
  error = h.error;
  as_before = cc (h.as_before);
}

pub checking-done :
    {A B : Type 0} (r : FileResult A) (f : A → Change B) (dir after : Dir) (b : B)
    → checking r f dir ≡ (done b, after)
    → (a : A) × (r ≡ done a) × (f a dir ≡ (done b, after))
checking-done (done a) f dir after b h = (a, refl, h)
checking-done (failed e) f dir after b h = cc h

pub walking-done :
    {A : Type 0} (w : Option FileError) (change : Change A) (dir after : Dir) (a : A)
    → walking w change dir ≡ (done a, after)
    → change dir ≡ (done a, after)
walking-done none change dir after a h = h
walking-done (some e) change dir after a h = cc h

pub on_done-done :
    {A B : Type 0} (p : FileResult A × Dir) (f : A → B) (after : Dir) (b : B)
    → on_done p f ≡ (done b, after)
    → (a : A) × (p ≡ (done a, after)) × (f a ≡ b)
on_done-done (done a, left) f after b h = (a, cc h, cc h)
on_done-done (failed e, left) f after b h = cc h

pub then_try-done :
    {A B : Type 0} (r : FileResult A) (f : A → FileResult B) (b : B)
    → then_try r f ≡ done b
    → (a : A) × (r ≡ done a) × (f a ≡ done b)
then_try-done (done a) f b h = (a, refl, h)
then_try-done (failed e) f b h = cc h

pub of_text-done : {A : Type 0} (o : Outcome A) (a : A) → of_text o ≡ done a → o ≡ ok a
of_text-done (ok x) a h = cc h
of_text-done (err e) a h = cc h

as_file-stat : (n : Node) (opened : Stat × Bytes) → as_file n ≡ done opened → node_stat n ≡ opened.0
as_file-stat (regular st data_) opened h = cc h
as_file-stat (directory st names) opened h = cc h
as_file-stat (symlink st) opened h = cc h
as_file-stat (special st) opened h = cc h

as_dir-stat :
    (n : Node) (opened : Stat × List String) → as_dir n ≡ done opened → node_stat n ≡ opened.0
as_dir-stat (regular st data_) opened h = cc h
as_dir-stat (directory st names) opened h = cc h
as_dir-stat (symlink st) opened h = cc h
as_dir-stat (special st) opened h = cc h

-- an object that is opened is the one that its name has the status of
pub open_regular-stat :
    (name : String) (dir : Dir) (opened : Stat × Bytes)
    → open_regular name dir ≡ done opened
    → stat_at name dir ≡ done (opened.0)
unfolding open_regular stat_at
open_regular-stat name dir opened h = elim (Option-cases (select_one (is_named name) dir)) [
  | inl f ↦ cc (rw (f, open_regular) at h)
  | inr (e, f) ↦ rw (f, stat_at) (ap done (as_file-stat e.node opened (rw (f, open_regular) at h)))
]

pub open_dir-stat :
    (name : String) (dir : Dir) (opened : Stat × List String)
    → open_dir name dir ≡ done opened
    → stat_at name dir ≡ done (opened.0)
unfolding open_dir stat_at
open_dir-stat name dir opened h = elim (Option-cases (select_one (is_named name) dir)) [
  | inl f ↦ cc (rw (f, open_dir) at h)
  | inr (e, f) ↦ rw (f, stat_at) (ap done (as_dir-stat e.node opened (rw (f, open_dir) at h)))
]
