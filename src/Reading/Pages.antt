-- ===== src/Reading/Pages.antt =====
-- What a page has of the file (src/serverfs_mcp/read_page.py).
use mathlib.Core.Option.{some-injective}
use server_fs_mcp.Prelude.{
  ℕ, ◌+◌, ◌≤◌, false, not, List, [], ◌++◌, ◌≡◌, length, take, arith, sym, ◌∙◌, refl, Bool-cases,
  inl, inr, String, ◌-◌, some, ◌<◌, ap, ◌==◌,
}
use server_fs_mcp.Reading.Loop.{Reads, read_from, ok-injective, is_empty, total, lines_from}
use server_fs_mcp.Reading.{
  Bytes, TextPage, Progress, has_mark, raw_lines, ok, drop, read_page_from_fd, next_start_line,
  to_page, PageResult, err,
}

abbrev pub file_lines : ℕ → Bytes → List Bytes
file_lines binary_sample content =
    lines_from (has_mark (take binary_sample content)) 0 (raw_lines content)

abbrev pub IsPageOf : ℕ → ℕ → ℕ → List Bytes → TextPage → Type 0
IsPageOf start_line max_lines max_read_bytes ls page =
    (rest : List Bytes) × (ls ≡ page.lines ++ rest)
    × (page.has_more ≡ not (is_empty rest))
    × (length page.lines ≤ max_lines)
    × (page.bytes_returned ≡ total page.lines)
    × (page.bytes_returned ≤ max_read_bytes)
    × (page.end_line + 1 ≡ start_line + length page.lines)

abbrev progress_of : TextPage → Progress
progress_of page = record {
  lines = page.lines;
  bytes_returned = page.bytes_returned;
  end_line = page.end_line;
  has_more = page.has_more;
}

to_page-ok :
    (before after : String) (sample : Bytes) (r : PageResult Progress) (page : TextPage)
    → to_page before after sample r ≡ ok page
    → r ≡ ok (progress_of page)
to_page-ok before after sample (err e) page h = cc
to_page-ok before after sample (ok s) page h = elim (Bool-cases (after == before)) [
  | inl stable ↦ ap (λ p. ok (progress_of p)) (ok-injective _ page (rw stable at h))
  | inr changed ↦ cc (rw changed at h)
]

module _ (start_line max_lines max_read_bytes binary_sample : ℕ) (first : 1 ≤ start_line)
    (positive : 1 ≤ max_lines) where
  page-Reads :
      (before after : String) (content : Bytes) (page : TextPage)
      → read_page_from_fd start_line max_lines max_read_bytes binary_sample before after content
        ≡ ok page
      → Reads max_lines max_read_bytes
          (drop (start_line - 1) (file_lines binary_sample content))
          (record { lines = []; bytes_returned = 0; end_line = start_line - 1; has_more = false })
          (progress_of page)
  unfolding read_page_from_fd
  page-Reads before after content page h =
      let sample = take binary_sample content in
      read_from (has_mark sample) start_line max_lines max_read_bytes positive (start_line - 1)
        (raw_lines content) 0 _ (progress_of page) (omega arith)
        (record {
          open_end = refl;
          few = omega arith;
          bytes = refl;
          small = omega arith;
          at_line = omega arith;
        })
        (to_page-ok before after sample _ page h)

  -- A page that is read has the next lines of the file from the start line on, without the byte
  -- order mark: they fit the limits of lines and bytes, the count of bytes is theirs, the end line
  -- is that of the last, and there is more exactly where lines of the file are left. The start line
  -- and the limit of lines are positive.
  pub page-IsPageOf :
      (before after : String) (content : Bytes) (page : TextPage)
      → read_page_from_fd start_line max_lines max_read_bytes binary_sample before after content
        ≡ ok page
      → IsPageOf start_line max_lines max_read_bytes
          (drop (start_line - 1) (file_lines binary_sample content))
          page
  page-IsPageOf before after content page h =
      let r = page-Reads before after content page h in
      (
        r.rest,
        r.splits ∙ ap (λ ls. ls ++ r.rest) (sym (r.lines)),
        r.more,
        r.few,
        rw (r.lines) (ground (arith, r.bytes)),
        r.small,
        rw (r.lines) (ground (arith, r.ends)),
      )

  -- A page that has more has a line, so the next start line that a client is given lies behind the
  -- start line. The start line and the limit of lines are positive.
  pub next_page_advances :
      (before after : String) (content : Bytes) (page : TextPage) (next : ℕ)
      → read_page_from_fd start_line max_lines max_read_bytes binary_sample before after content
        ≡ ok page
      → next_start_line page ≡ some next
      → start_line < next
  next_page_advances before after content page next h e =
      let r = page-Reads before after content page h in
      elim (Bool-cases page.has_more) [
        | inl more ↦
            let some_line : 1 ≤ length page.lines = r.moves more in
            let taken : length page.lines ≡ length r.taken = ap length r.lines in
            let ends : page.end_line ≡ (start_line - 1) + length r.taken = r.ends in
            let here : page.end_line + 1 ≡ next = some-injective _ next (rw more at e) in
            omega arith
        | inr done ↦ cc (rw done at e)
      ]
