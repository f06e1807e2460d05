-- ===== src/Reading/Walk.antt =====
-- Reading a file page by page (src/serverfs_mcp/read_page.py): a client asks for the page at the next
-- start line that it was given, while the file stays as it is. It runs on fuel.
use native.Mathlib.Numerals.{unary_clauses}
use server_fs_mcp.Prelude.{
  ℕ, zero, suc, ◌+◌, ◌-◌, ◌≤◌, ◌<◌, Bool, true, false, not, Option, none, some, List, [], ◌∷◌, ◌++◌,
  ◌≡◌, length, take, arith, sym, ◌∙◌, refl, Bool-cases, inl, inr, String, ap, ltb, leb, eq_refl,
  length-append, nat_eq, any, All, any, nat_eq,
}
use server_fs_mcp.Reading.{
  Bytes, TextPage, Progress, PageResult, ok, err, has_mark, raw_lines, line_text, drop, read_lines,
  read_page_from_fd, next_start_line, to_page,
}
use server_fs_mcp.Reading.Loop.{lines_from, is_empty, append-nil}
use server_fs_mcp.Reading.Pages.{file_lines, page-IsPageOf, next_page_advances}

abbrev pub add_lines :
    List Bytes → Option (PageResult (List Bytes)) → Option (PageResult (List Bytes))
add_lines ls none = none
add_lines ls (some (err e)) = some (err e)
add_lines ls (some (ok more)) = some (ok (ls ++ more))

module _ (max_lines max_read_bytes binary_sample : ℕ) (revision : String) (content : Bytes) where
  -- the lines of the pages from a start line on; none where the fuel runs out
  unfoldable pub read_pages : ℕ → ℕ → Option (PageResult (List Bytes))
  read_pages zero start_line = none
  read_pages (suc fuel) start_line =
      elim (read_page_from_fd start_line max_lines max_read_bytes binary_sample revision revision
        content) [
          | err e ↦ some (err e)
          | ok page ↦ elim (next_start_line page) [
            | none ↦ some (ok page.lines)
            | some next ↦ add_lines page.lines (read_pages fuel next)
          ]
        ]

drop_add : (a b : ℕ) (xs : List Bytes) → drop (a + b) xs ≡ drop b (drop a xs)
drop_add zero b xs = let same : 0 + b ≡ b = omega arith in ap (λ n. drop n xs) same
drop_add (suc a) zero [] = simp unary_clauses refl
drop_add (suc a) (suc b) [] = simp unary_clauses refl
drop_add (suc a) b (x ∷ xs) =
    let same : suc a + b ≡ suc (a + b) = omega arith in
    ap (λ n. drop n (x ∷ xs)) same ∙ drop_add a b xs

drop-append : (xs ys : List Bytes) → drop (length xs) (xs ++ ys) ≡ ys
drop-append [] ys = refl
drop-append (x ∷ xs) ys = drop-append xs ys

last_page : (xs rest : List Bytes) → false ≡ not (is_empty rest) → xs ++ rest ≡ xs
last_page xs [] h = append-nil xs
last_page xs (l ∷ ls) h = cc h

-- the loop ends without an error where every line fits
module _ (bom : Bool) (start_line max_lines max_read_bytes : ℕ) where
  read_lines-ok :
      (raws : List Bytes) (n : ℕ) (s : Progress)
      → All (λ l. length l ≤ max_read_bytes) (lines_from bom n raws)
      → (s' : Progress) × (read_lines bom start_line max_lines max_read_bytes raws n s ≡ ok s')
  unfolding read_lines
  read_lines-ok [] n s fits = (s, refl)
  read_lines-ok (raw ∷ raws) n s fits =
      let text = line_text bom (suc n) raw in
      let small : ltb max_read_bytes (length text) ≡ false = ground (arith, fits.0) in
      elim (Bool-cases (ltb (suc n) start_line)) [
        | inl before ↦ rw before (read_lines-ok raws (suc n) s (fits.1))
        | inr here ↦ elim (Bool-cases (leb max_lines (length s.lines))) [
          | inl full ↦ (record s { has_more = true }, rw (here, small, full) refl)
          | inr room ↦ elim (Bool-cases (ltb max_read_bytes (s.bytes_returned + length text))) [
            | inl over ↦ (record s { has_more = true }, rw (here, small, room, over) refl)
            | inr under ↦ rw (here, small, room, under) (read_lines-ok raws (suc n) _ (fits.1))
          ]
        ]
      ]

module _ (max_lines max_read_bytes binary_sample : ℕ) (positive : 1 ≤ max_lines) (revision : String)
    (content : Bytes)
    (fits : All (λ l. length l ≤ max_read_bytes) (file_lines binary_sample content)) where
  page_of :
      (sample : Bytes) (s : Progress)
      → (page : TextPage) × (to_page revision revision sample (ok s) ≡ ok page)
  page_of sample s = (
    record {
      revision = revision;
      lines = s.lines;
      bytes_returned = s.bytes_returned;
      end_line = s.end_line;
      has_more = s.has_more;
      has_nul = any (λ b. nat_eq b 0) sample;
      has_bom = has_mark sample;
    },
    rw (eq_refl revision) refl,
  )

  page_there :
      (start_line : ℕ)
      → (page : TextPage) × (read_page_from_fd start_line max_lines max_read_bytes binary_sample
            revision revision content
          ≡ ok page)
  unfolding read_page_from_fd
  page_there start_line =
      let sample = take binary_sample content in
      let (s, r) =
        read_lines-ok (has_mark sample) start_line max_lines max_read_bytes (raw_lines content) 0
          (record { lines = []; bytes_returned = 0; end_line = start_line - 1; has_more = false })
          fits in
      let (page, p) = page_of sample s in (page, ap (to_page revision revision sample) r ∙ p)

  rest_behind :
      (start_line : ℕ) (page : TextPage) (rest : List Bytes)
      → 1 ≤ start_line
      → page.end_line + 1 ≡ start_line + length page.lines
      → drop (start_line - 1) (file_lines binary_sample content) ≡ page.lines ++ rest
      → drop ((page.end_line + 1) - 1) (file_lines binary_sample content) ≡ rest
  rest_behind start_line page rest first ends splits =
      let ls = file_lines binary_sample content in
      let at : (page.end_line + 1) - 1 ≡ (start_line - 1) + length page.lines = omega arith in
      ap (λ n. drop n ls) at
      ∙ drop_add (start_line - 1) (length page.lines) ls
      ∙ ap (drop (length page.lines)) splits
      ∙ drop-append page.lines rest

  -- A client that reads the pages of a file one after another, each from the next start line that it
  -- was given, is through after one page more than the file has lines from its first start line on, and
  -- has read exactly those lines, without the byte order mark. The file stays as it is, no line is
  -- longer than the limit of bytes, and the start line and the limit of lines are positive.
  pub read_pages-all :
      (fuel start_line : ℕ)
      → 1 ≤ start_line
      → length (drop (start_line - 1) (file_lines binary_sample content)) < fuel
      → read_pages max_lines max_read_bytes binary_sample revision content fuel start_line
        ≡ some (ok (drop (start_line - 1) (file_lines binary_sample content)))
  unfolding read_pages
  read_pages-all zero start_line first enough = ground (arith, enough)
  read_pages-all (suc fuel) start_line first enough =
      let (page, r) = page_there start_line in
      let (rest, splits, more, few, bytes, small, ends) =
        page-IsPageOf start_line max_lines max_read_bytes binary_sample first positive revision
          revision content page r in
      elim (Bool-cases page.has_more) [
        | inr stop ↦
            let all : page.lines ++ rest ≡ page.lines =
              last_page page.lines rest (sym stop ∙ more) in
            rw (r, stop, read_pages) (ap (λ ls. some (ok ls)) (sym (splits ∙ all)))
        | inl on ↦
            let next : start_line < page.end_line + 1 =
              next_page_advances start_line max_lines max_read_bytes binary_sample first positive
                revision revision content page (page.end_line + 1) r (rw on refl) in
            let behind = rest_behind start_line page rest first ends splits in
            let shorter : length (page.lines ++ rest) < suc fuel = rw splits at enough in
            let sum = length-append page.lines rest in
            let go =
              read_pages-all fuel (page.end_line + 1) (omega arith) (rw behind (omega arith)) in
            rw (r, on, go, behind, read_pages) (ap (λ ls. some (ok ls)) (sym splits))
      ]
